-- ===== src/KeyTree/Arena/Recover.antt =====
-- Reconstruction recovers the dealt secret exactly when the policy is met (src/key_tree.rs).
use mathlib.Core.List.{append_assoc}
use key_quorom.Prelude.{
  ℕ, zero, suc, Bytes, ◌+◌, ◌≤◌, ◌<◌, ◌≡◌, ◌%◌, refl, ap, ◌∙◌, Bool, true, false, Option, some,
  List, [], ◌∷◌, ◌++◌, leb, leb→le, ltb, if◌then◌else◌, length, length-append, get_elem?,
  Bool-cases, Option-cases, inl, inr, arith,
}
use key_quorom.Prelude.Equality.{list_eq, nat_eq, ◌∈◌, beq_refl}
use key_quorom.Error.{Result, ok, err, quorum_not_met}
use key_quorom.KeyTree.Arena.{
  KeyNode, KeyQuorumTree, Shamir, Run, resolve_children, recover_from, reconstruct_node,
  reconstruct,
}
use key_quorom.KeyTree.Arena.Sublists.{Sublist, done, Sublist-append_skip, Sublist-append_keep}
use key_quorom.KeyTree.Arena.Policy.{
  Policy, Policies, holder, quorum, nil, cons, met, count_met, depth, depth_all, count_policies,
  IsShamir, is_supplied, Represents, RepresentsAll,
}

module _ (shamir : Shamir) (law : IsShamir shamir) (tree : KeyQuorumTree)
    (raw_shares : ℕ → Option Bytes) where
  abbrev supplied : ℕ → Bool
  supplied = is_supplied raw_shares

  -- What a met policy returns, and an unmet one.
  abbrev answer : Policy → Bytes → Result Bytes
  answer p value = if met supplied p then ok value else err quorum_not_met

  -- The loop over the children returns some of the dealt shares, in order, and enough of them
  -- exactly if enough children are met.
  record Resolved (again : ℕ → Run Bytes) (t : ℕ) (resolved : List Bytes) (indices : List ℕ)
      (dealt : List Bytes) (reached : ℕ) : Type 0 where
    out : List Bytes
    returns : resolve_children shamir tree raw_shares again t indices resolved ≡ some out
    within : Sublist out dealt
    enough : leb t (length out) ≡ leb t reached

  recover_enough :
      (t : ℕ) (value : Bytes) (randomness n : ℕ) (out : List Bytes)
      → 0 < length value
      → (0 < t) × (t ≤ n) × (n ≤ 255)
      → Sublist out (shamir.deal t value randomness n)
      → recover_from shamir tree raw_shares t out
        ≡ (if leb t (length out) then ok value else err quorum_not_met)
  unfolding recover_from
  recover_enough t value randomness n out some_bytes bounds sub =
      elim (Bool-cases (leb t (length out))) [
        | inl y ↦
            let whole : t % 256 ≡ t = omega (arith, bounds.1, bounds.2) in
            let few : ltb (length out) t ≡ false = ground arith in
            let found =
              law.recovers t value randomness n out some_bytes bounds sub
                (leb→le t (length out) y) in
            rw (few, y, whole, found) refl
        | inr k ↦ let few : ltb (length out) t ≡ true = ground arith in rw (few, k) refl
      ]

  abbrev active_of : Policy → Bool
  active_of (holder active id) = active
  active_of (quorum active t cs) = active

  node_of :
      (p : Policy) (i : ℕ) (value : Bytes)
      → Represents shamir tree raw_shares p i value
      → (node : KeyNode) × (get_elem? tree.nodes i ≡ some node) × (node.is_active ≡ active_of p)
  node_of (holder active id) i value (node, at, is, k, key, id_of, raw) = (node, at, is)
  node_of (quorum active t cs) i value (node, at, is, key, threshold, bounds, randomness, below) =
      (node, at, is)

  met_active : (p : Policy) → active_of p ≡ false → met supplied p ≡ false
  met_active (holder active id) h = rw h refl
  met_active (quorum active t cs) h = rw h refl

  resolve_step :
      (again : ℕ → Run Bytes) (t : ℕ) (c : Policy) (i : ℕ) (rest : List ℕ) (share : Bytes)
      (resolved : List Bytes)
      → Represents shamir tree raw_shares c i share
      → leb t (length resolved) ≡ false
      → again i ≡ some (answer c share)
      → shamir.is_share share ≡ true
      → resolve_children shamir tree raw_shares again t (i ∷ rest) resolved
        ≡ resolve_children shamir tree raw_shares again t rest
            (if met supplied c then resolved ++ share ∷ [] else resolved)
  unfolding resolve_children
  resolve_step again t c i rest share resolved rep more answered reads =
      let (node, at, is) = node_of c i share rep in
      elim (Bool-cases (active_of c)) [
        | inr idle ↦ rw (more, at, is, idle, met_active c idle) refl
        | inl active ↦ elim (Bool-cases (met supplied c)) [
          | inl y ↦ rw (more, at, is, active, answered, y, reads) refl
          | inr n ↦ rw (more, at, is, active, answered, n) refl
        ]
      ]

  -- The shares that a dealer hands out.
  abbrev Readable : List Bytes → Type 0
  Readable shares =
      (share : Bytes) → share ∈ shares → (shamir.is_share share ≡ true) × (0 < length share)

  -- The rest of the loop after a child whose share was taken, or left out.
  Resolved-cons :
      (again : ℕ → Run Bytes) (t : ℕ) (c : Policy) (cs : Policies) (i : ℕ) (indices : List ℕ)
      (share : Bytes) (shares before resolved : List Bytes)
      → resolve_children shamir tree raw_shares again t (i ∷ indices) resolved
        ≡ resolve_children shamir tree raw_shares again t indices
            (if met supplied c then resolved ++ share ∷ [] else resolved)
      → Resolved again t
          (resolved ++ share ∷ [])
          indices
          ((before ++ share ∷ []) ++ shares)
          (length (resolved ++ share ∷ []) + count_met supplied cs)
      → Resolved again t resolved indices
          ((before ++ share ∷ []) ++ shares)
          (length resolved + count_met supplied cs)
      → Resolved again t resolved
          (i ∷ indices)
          (before ++ share ∷ shares)
          (length resolved + count_met supplied (cons c cs))
  Resolved-cons again t c cs i indices share shares before resolved step taken left =
      let together : (before ++ share ∷ []) ++ shares ≡ before ++ share ∷ shares =
        append_assoc before (share ∷ []) shares in
      let longer : length (resolved ++ share ∷ []) ≡ suc (length resolved) =
        omega (arith, length-append resolved (share ∷ [])) in
      elim (Bool-cases (met supplied c)) [
        | inl y ↦
            let step' = rw y at step in
            record {
              out = taken.out;
              returns = step' ∙ taken.returns;
              within = rw together at taken.within;
              enough = rw y (taken.enough ∙ ap (leb t) (omega (arith, longer)));
            }
        | inr n ↦
            let step' = rw n at step in
            record {
              out = left.out;
              returns = step' ∙ left.returns;
              within = rw together at left.within;
              enough = rw n left.enough;
            }
      ]

  mutual
    unfolding reconstruct_node resolve_children

    reconstruct_answer :
        (fuel : ℕ) (p : Policy) (i : ℕ) (value : Bytes)
        → Represents shamir tree raw_shares p i value
        → 0 < length value
        → depth p ≤ fuel
        → reconstruct_node shamir tree raw_shares fuel i ≡ some (answer p value)
    reconstruct_answer zero (holder active id) i value rep some_bytes enough = absurd (omega arith)
    reconstruct_answer zero (quorum active t cs) i value rep some_bytes enough =
        absurd (omega arith)
    reconstruct_answer (suc fuel) (holder active id) i value (node, at, is, k, key, id_of, raw)
          some_bytes enough =
        elim (Bool-cases active) [
          | inr idle ↦ rw (at, is, idle, reconstruct_node) refl
          | inl y ↦ elim (Option-cases (raw_shares id)) [
            | inl missing ↦ rw (at, is, y, key, id_of, missing, reconstruct_node) refl
            | inr (share, given) ↦
                rw (at, is, y, key, id_of, given, reconstruct_node)
                  (ap (λ x. some (ok x)) (raw share given))
          ]
        ]
    reconstruct_answer (suc fuel) (quorum active t cs) i value
          (node, at, is, key, threshold, bounds, randomness, below) some_bytes enough =
        let shares = shamir.deal t value randomness (count_policies cs) in
        let all =
          resolve_all fuel cs node.children_indices shares below (omega arith) t [] []
            (λ share. law.reads t value randomness (count_policies cs) share some_bytes) done in
        elim (Bool-cases active) [
          | inr idle ↦ rw (at, is, idle, reconstruct_node) refl
          | inl y ↦
              let found = all.returns in
              let total =
                recover_enough t value randomness (count_policies cs) all.out some_bytes bounds
                  all.within in
              let enough_met : leb t (length all.out) ≡ leb t (count_met supplied cs) =
                all.enough ∙ ap (leb t) (omega arith) in
              rw (at, is, y, key, threshold, found, total, enough_met, reconstruct_node) refl
        ]

    resolve_all :
        (fuel : ℕ) (cs : Policies) (indices : List ℕ) (shares : List Bytes)
        → RepresentsAll shamir tree raw_shares cs indices shares
        → depth_all cs ≤ fuel
        → (t : ℕ) (before resolved : List Bytes) → Readable shares
        → Sublist resolved before
        → Resolved
            (reconstruct_node shamir tree raw_shares fuel)
            t
            resolved
            indices
            (before ++ shares)
            (length resolved + count_met supplied cs)
    resolve_all fuel nil [] [] rep deep t before resolved reads sub = record {
      out = resolved;
      returns = refl;
      within = Sublist-append_skip [] sub;
      enough = ap (leb t) (omega arith);
    }
    resolve_all fuel nil [] (share ∷ shares) rep deep t before resolved reads sub = absurd rep
    resolve_all fuel nil (i ∷ indices) shares rep deep t before resolved reads sub = absurd rep
    resolve_all fuel (cons c cs) [] shares rep deep t before resolved reads sub = absurd rep
    resolve_all fuel (cons c cs) (i ∷ indices) [] rep deep t before resolved reads sub = absurd rep
    resolve_all fuel (cons c cs) (i ∷ indices) (share ∷ shares) (rep, reps) deep t before resolved
          reads sub =
        let (readable, some_bytes) = reads share (rw (beq_refl share) refl) in
        let later : Readable shares = λ s m. reads s (rw m (ground arith)) in
        let answered = reconstruct_answer fuel c i share rep some_bytes (omega arith) in
        elim (Bool-cases (leb t (length resolved))) [
          | inl full ↦ record {
            out = resolved;
            returns = rw full refl;
            within = Sublist-append_skip (share ∷ shares) sub;
            enough = ground arith;
          }
          | inr more ↦
              Resolved-cons (reconstruct_node shamir tree raw_shares fuel) t c cs i indices share
                shares before resolved
                (resolve_step (reconstruct_node shamir tree raw_shares fuel) t c i indices share
                  resolved rep more answered readable)
                (resolve_all fuel cs indices shares reps (omega arith) t (before ++ share ∷ [])
                  (resolved ++ share ∷ []) later (Sublist-append_keep share sub))
                (resolve_all fuel cs indices shares reps (omega arith) t (before ++ share ∷ [])
                  resolved later (Sublist-append_skip (share ∷ []) sub))
        ]

  -- Let the tree's root stand for a policy and the shares of a secret that is not empty be dealt
  -- below it, each raw share supplied being the holder's. With fuel for the policy's depth,
  -- reconstruction returns the secret if the supplied holders meet the policy, and `QuorumNotMet`
  -- if they do not; the Shamir scheme is only assumed to read its own shares and to recover from
  -- enough of them.
  pub reconstruct_lem :
      (p : Policy) (fuel : ℕ) (secret : Bytes)
      → Represents shamir tree raw_shares p tree.root_index secret
      → 0 < length secret
      → depth p ≤ fuel
      → reconstruct shamir tree raw_shares fuel
        ≡ some (if met (is_supplied raw_shares) p then ok secret else err quorum_not_met)
  unfolding reconstruct
  reconstruct_lem p fuel secret rep some_bytes enough =
      reconstruct_answer fuel p tree.root_index secret rep some_bytes enough
