-- ===== src/Relay/Mailbox/Paging.antt =====
-- Following the pages of an inbox reads each envelope once (src/relay/mailbox.rs).
use mathlib.Core.List.{append-nil}
use mathlib.Core.Path.{subst}
use key_quorom.Prelude.{
  ℕ, zero, suc, Bytes, ◌+◌, ◌≤◌, ◌<◌, ◌≡◌, refl, ap, true, false, Option, none, some, List, [], ◌∷◌,
  ◌++◌, arith, ltb, ltb→lt, lt→ltb, length, take, Bool-cases, inl, inr,
}
use key_quorom.Prelude.Int.{ℤ, pos, negsuc}
use key_quorom.Prelude.Equality.{nat_eq, list_eq}
use key_quorom.Prelude.Sql.{select_all}
use key_quorom.Error.{ok, >>=-elim, ok-injective}
use key_quorom.Relay.Mailbox.{
  max_inbox_page, StoredEnvelope, MailboxPage, page_size, is_after, pop, last_id, page_of, or_zero,
  list_after,
}

-- Every id of the rows is above `n`, and they ascend.
abbrev pub Ascending : ℕ → List StoredEnvelope → Type 0
Ascending n [] = Unit
Ascending n (e ∷ es) = (n < e.id) × Ascending e.id es

-- Bounds below all the ids select the same rows.
above_all :
    (fp : Bytes) (m n b : ℕ) (es : List StoredEnvelope)
    → m ≤ b
    → n ≤ b
    → Ascending b es
    → select_all (is_after fp m) es ≡ select_all (is_after fp n) es
unfolding select_all
above_all fp m n b [] u v up = refl
above_all fp m n b (e ∷ es) u v (low, up) =
    rw
      (
        lt→ltb m e.id (omega arith),
        lt→ltb n e.id (omega arith),
        above_all fp m n e.id es (omega arith) (omega arith) up,
      )
      refl

last_id-cons :
    (e : StoredEnvelope) (es : List StoredEnvelope) (i : ℕ)
    → last_id es ≡ some i
    → last_id (e ∷ es) ≡ some i
unfolding last_id
last_id-cons e [] i h = absurd (cc h)
last_id-cons e (f ∷ es) i h = h

-- The first rows of the inbox after an id, the last id among them, and the rows after that one.
record Cut (fp : Bytes) (after n k : ℕ) (es : List StoredEnvelope) : Type 0 where
  i : ℕ
  last : last_id (take (suc k) (select_all (is_after fp after) es)) ≡ some i
  rejoined :
      take (suc k) (select_all (is_after fp after) es) ++ select_all (is_after fp i) es
      ≡ select_all (is_after fp after) es
  above : n < i

not_after : (fp : Bytes) (n : ℕ) (e : StoredEnvelope) → e.id ≤ n → is_after fp n e ≡ false
not_after fp n e h = ground arith

is_later : (fp : Bytes) (n : ℕ) (e : StoredEnvelope) → is_after fp n e ≡ true → n < e.id
is_later fp n e h = ground arith

-- The row is the last of the page.
Cut-here :
    (fp : Bytes) (after n : ℕ) (e : StoredEnvelope) (es : List StoredEnvelope)
    → Ascending n (e ∷ es)
    → is_after fp after e ≡ true
    → Cut fp after n zero (e ∷ es)
unfolding select_all last_id
Cut-here fp after n e es (low, up) y = record {
  i = e.id;
  last = rw y refl;
  rejoined =
      rw (y, not_after fp e.id e (omega arith))
        (ap (λ xs. e ∷ xs)
          (above_all fp e.id after e.id es (omega arith) (omega (arith, is_later fp after e y))
            up));
  above = low;
}

Cut-further :
    (fp : Bytes) (after n k : ℕ) (e : StoredEnvelope) (es : List StoredEnvelope)
    → n < e.id
    → is_after fp after e ≡ true
    → Cut fp after e.id k es
    → Cut fp after n (suc k) (e ∷ es)
unfolding select_all
Cut-further fp after n k e es low y rest = record {
  i = rest.i;
  last = rw y (last_id-cons e (take (suc k) (select_all (is_after fp after) es)) rest.i rest.last);
  rejoined =
      rw (y, not_after fp rest.i e (omega (arith, rest.above))) (ap (λ xs. e ∷ xs) rest.rejoined);
  above = omega (arith, rest.above);
}

Cut-skip :
    (fp : Bytes) (after n k : ℕ) (e : StoredEnvelope) (es : List StoredEnvelope)
    → n < e.id
    → is_after fp after e ≡ false
    → Cut fp after e.id k es
    → Cut fp after n k (e ∷ es)
unfolding select_all
Cut-skip fp after n k e es low other rest = record {
  i = rest.i;
  last = rw other rest.last;
  rejoined = rw (other, not_after fp rest.i e (omega (arith, rest.above))) rest.rejoined;
  above = omega (arith, rest.above);
}

cut :
    (fp : Bytes) (after n k : ℕ) (es : List StoredEnvelope)
    → Ascending n es
    → suc k ≤ length (select_all (is_after fp after) es)
    → Cut fp after n k es
unfolding select_all
cut fp after n k [] up enough = absurd (omega arith)
cut fp after n zero (e ∷ es) (low, up) enough = elim (Bool-cases (is_after fp after e)) [
  | inr other ↦
      Cut-skip fp after n zero e es low other (cut fp after e.id zero es up (rw other at enough))
  | inl y ↦ Cut-here fp after n e es (low, up) y
]
cut fp after n (suc k) (e ∷ es) (low, up) enough = elim (Bool-cases (is_after fp after e)) [
  | inr other ↦
      Cut-skip fp after n (suc k) e es low other
        (cut fp after e.id (suc k) es up (rw other at enough))
  | inl y ↦
      let more = rw y at enough in
      Cut-further fp after n k e es low y (cut fp after e.id k es up (omega (arith, more)))
]

pop-take : (k : ℕ) (es : List StoredEnvelope) → k < length es → pop (take (suc k) es) ≡ take k es
unfolding pop
pop-take k [] h = absurd (omega arith)
pop-take zero (e ∷ es) h = refl
pop-take (suc k) (e ∷ []) h = absurd (omega arith)
pop-take (suc k) (e ∷ f ∷ es) h = ap (λ xs. e ∷ xs) (pop-take k (f ∷ es) (omega arith))

take_all : (n : ℕ) (es : List StoredEnvelope) → length es ≤ n → take n es ≡ es
take_all zero [] h = refl
take_all (suc n) [] h = refl
take_all zero (e ∷ es) h = absurd (omega arith)
take_all (suc n) (e ∷ es) h = ap (λ xs. e ∷ xs) (take_all n es (omega arith))

length-take_le : (n : ℕ) (es : List StoredEnvelope) → length (take n es) ≤ n
length-take_le zero es = omega arith
length-take_le (suc n) [] = omega arith
length-take_le (suc n) (e ∷ es) = omega (arith, length-take_le n es)

length-take_some : (n : ℕ) (es : List StoredEnvelope) → n ≤ length es → length (take n es) ≡ n
length-take_some zero es h = refl
length-take_some (suc n) [] h = absurd (omega arith)
length-take_some (suc n) (e ∷ es) h = ap suc (length-take_some n es (omega arith))

-- What a page leaves to read.
abbrev pub remaining : List StoredEnvelope → Bytes → Option ℕ → List StoredEnvelope
remaining table fp none = []
remaining table fp (some i) = select_all (is_after fp i) table

page_of_lem :
    (fp : Bytes) (after k n : ℕ) (table : List StoredEnvelope)
    → Ascending n table
    → let rows : List StoredEnvelope = select_all (is_after fp after) table in
      let page : MailboxPage = page_of (suc k) (take (suc k + 1) rows) in
      (page.envelopes ++ remaining table fp page.next_after ≡ rows)
      × (length page.envelopes ≤ suc k)
unfolding page_of
page_of_lem fp after k n table up =
    let rows : List StoredEnvelope = select_all (is_after fp after) table in
    let one_more : suc k + 1 ≡ suc (suc k) = omega arith in
    elim (Bool-cases (ltb (suc k) (length rows))) [
      | inr few ↦
          let short : length rows ≤ suc (suc k) = ground arith in
          let within : length rows ≤ suc k = ground arith in
          rw (one_more, take_all (suc (suc k)) rows short, few) (append-nil rows, within)
      | inl many ↦
          let m = ltb→lt (suc k) (length rows) many in
          let page = cut fp after n k table up (omega (arith, m)) in
          let full : ltb (suc k) (length (take (suc (suc k)) rows)) ≡ true =
            lt→ltb _ _ (omega (arith, length-take_some (suc (suc k)) rows (omega (arith, m)))) in
          rw (one_more, full, pop-take (suc k) rows m, page.last)
            (page.rejoined, length-take_le (suc k) rows)
    ]

page_size_lem :
    (limit : Option ℤ) (page : ℕ)
    → page_size limit ≡ ok page
    → (k : ℕ) × (suc k ≡ page) × (page ≤ 500)
unfolding page_size
page_size_lem none page h = (99, ground arith, ground arith)
page_size_lem (some (pos zero)) page h = absurd (cc h)
page_size_lem (some (pos (suc k))) page h = (k, ground arith, ground arith)
page_size_lem (some (negsuc n)) page h = absurd (cc h)

-- Let the ids of the mailbox's rows ascend. A page that is read is, followed by the recipient's
-- envelopes after the id that it names for the next page (none if it names no id), all of the
-- recipient's envelopes after the id asked for, in order; and it has at most 500 envelopes.
pub list_after_lem :
    (table : List StoredEnvelope) (fingerprint : Bytes) (after : Option ℕ) (limit : Option ℤ)
    (n : ℕ) (p : MailboxPage)
    → Ascending n table
    → list_after table fingerprint after limit ≡ ok p
    → (p.envelopes ++ remaining table fingerprint p.next_after
        ≡ select_all (is_after fingerprint (or_zero after)) table)
      × (length p.envelopes ≤ max_inbox_page)
unfolding list_after
list_after_lem table fp after limit n p up h = >>=-elim (page_size limit) _ h λ page e made.
    let (k, is, small) = page_size_lem limit page e in
    let whole = page_of_lem fp (or_zero after) k n table up in
    subst
      (λ (q : MailboxPage).
        (q.envelopes ++ remaining table fp q.next_after
          ≡ select_all (is_after fp (or_zero after)) table)
        × (length q.envelopes ≤ max_inbox_page))
      (ok-injective (rw is made)) (whole.0, omega (arith, whole.1, is, small))
