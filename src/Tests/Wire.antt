-- ===== src/Tests/Wire.antt =====
-- CRDT updates between concrete instances.
use cali_go_stack.Base.{◌≡◌, ◌≢◌, refl, true, some, [], ◌∷◌, codes}
use cali_go_stack.Queue.Chan.{Bytes}
use cali_go_stack.Store.Transport.{
  TransportConfig, Op, message_of, publish, on_message, wired, fingerprint, fnv32a, hex8,
}
use cali_go_stack.Store.Transport.RoundTrip.{publish-on_message, wired_loses_owner}

abbrev here : TransportConfig
here = record { jet_stream = some (λ m. true); publisher_id = codes "a" }

abbrev there : TransportConfig
there = record { jet_stream = some (λ m. true); publisher_id = codes "b" }

-- An update that holds a colon.
abbrev op : Op
op = record { id = codes "u1"; publisher_id = []; owner_id = codes "ann"; updates = 58 ∷ 7 ∷ [] }

-- The FNV-1a hashes of one letter, as the Go library gives them.
fingerprint_computed :
    (fingerprint (codes "a") ≡ codes "e40c292c") × (fingerprint (codes "b") ≡ codes "e70c2de5")
unfolding fingerprint fnv32a hex8
fingerprint_computed = (refl, refl)

apart : fingerprint (codes "a") ≢ fingerprint (codes "b")
unfolding fingerprint fnv32a hex8
apart e = cc

publish-on_message_example :
    on_message there (codes "ann") (message_of here op)
    ≡ some (record {
      id = codes "u1";
      publisher_id = codes "e40c292c";
      owner_id = codes "ann";
      updates = 58 ∷ 7 ∷ [];
    })
unfolding publish fingerprint fnv32a hex8
publish-on_message_example =
    publish-on_message here there op (message_of here op) (λ e. cc) refl refl

wired_loses_owner_example :
    (owner : Bytes) × (read : Op) × (wired there (message_of here op) ≡ some (owner, read))
    × (owner ≢ codes "ann")
unfolding publish
wired_loses_owner_example =
    wired_loses_owner here there op (message_of here op) (λ e. cc) refl (λ e. cc) apart refl
