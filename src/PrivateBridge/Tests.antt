-- ===== src/PrivateBridge/Tests.antt =====
-- Labels and packages of private bridges (src/private_bridge.rs).

use key_quorom.Prelude.{◌↔◌, Bytes, ◌≡◌, refl, Option, some, [], ◌∷◌}
use key_quorom.Prelude.Equality.{nat_eq, list_eq, contains}
use key_quorom.Error.{ok}
use key_quorom.PrivateBridge.SortedMap.{put, keys}
use key_quorom.PrivateBridge.Labels.{
  notify_labels, is_notified, IsAscending, notify_labels_lem, notify_set, parent_node_label,
}
use key_quorom.PrivateBridge.Parents.{IsParent, parent_node_label_iff}
use key_quorom.PrivateBridge.Package.Auth.{verify_update_auth}
use key_quorom.PrivateBridge.Package.Letter.{sign_update}
use key_quorom.PrivateBridge.Package.Envelope.{decode_package, routing_public_key}
use key_quorom.PrivateBridge.Package.RoundTrip.{delivered}
use key_quorom.PrivateBridge.Package.Sealed.{
  decode_package-encode_package, verify_update_auth-decode_package,
}
use key_quorom.PrivateBridge.Examples.{
  repeated, toy, box, ada, bob, boss, ada_key, fields, fields-IsPackage, package_bytes, encodes,
  decoded, decodes,
}

notify_two : notify_labels (ada ∷ bob ∷ []) ≡ boss ∷ ada ∷ bob ∷ []
unfolding notify_labels keys notify_set parent_node_label put
notify_two = refl

notify_labels_lem_example :
    IsAscending (notify_labels (ada ∷ bob ∷ []))
    × ((a : Bytes) → contains (notify_labels (ada ∷ bob ∷ [])) a ≡ is_notified (ada ∷ bob ∷ []) a)
notify_labels_lem_example = notify_labels_lem (ada ∷ bob ∷ [])

parent_node_label_iff_example : (parent_node_label ada ≡ some boss) ↔ IsParent boss ada
parent_node_label_iff_example = parent_node_label_iff ada boss

decode_package-encode_package_example :
    (sig : Option Bytes) × (sign_update toy fields (some (repeated 32 6)) ≡ ok sig)
    × (decode_package toy box package_bytes ada_key ≡ ok (delivered fields sig))
    × (routing_public_key package_bytes ≡ ok ada_key)
decode_package-encode_package_example =
    decode_package-encode_package toy box [] ada_key fields package_bytes (λ seed m. refl)
      fields-IsPackage refl encodes

verify_update_auth-decode_package_example : verify_update_auth toy decoded (repeated 32 6) ≡ ok tt
verify_update_auth-decode_package_example =
    verify_update_auth-decode_package toy box [] ada_key (repeated 32 6) fields package_bytes
      decoded (λ seed m. refl) fields-IsPackage refl refl encodes decodes
