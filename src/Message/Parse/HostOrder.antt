-- ===== src/Message/Parse/HostOrder.antt =====
-- Where the code leaves network order: the transaction id of BEGIN, and TRUNCATE.
use kafka_replication.Base.{
  ℕ, zero, suc, ◌/◌, ◌%◌, ◌^◌, ◌<◌, ◌≡◌, refl, ap, ◌∙◌, ◌↔◌, inl, inr, List, [], ◌∷◌, ◌++◌,
  append-nil, append_assoc, arith, Bool-cases, Bytes, length, ok, >>=-eq-ok, replicate,
}
use kafka_replication.Base.Word.{IsU32, be32, advance}
use kafka_replication.Wire.{memcpy, byte_at, read_uint32}
use kafka_replication.Wire.Cursor.{At, read_uint32-At}
use kafka_replication.Message.{TruncateMessage}
use kafka_replication.Message.Parse.{
  Host, big_endian, little_endian, from_host, parse_relation_ids, parse_truncate, read_relation_ids,
  parse_truncate_rest,
}

-- A word that is read in the host's order is right on a big-endian host; on a little-endian one it
-- is right exactly when its bytes read the same from both ends.
pub from_host-be32 :
    (w : ℕ)
    → IsU32 w
    → (from_host big_endian (be32 w) ≡ w)
      × ((from_host little_endian (be32 w) ≡ w)
          ↔ ((w / 2 ^ 24 ≡ w % 2 ^ 8) × (w / 2 ^ 16 % 2 ^ 8 ≡ w / 2 ^ 8 % 2 ^ 8)))
unfolding from_host
from_host-be32 w h = (omega arith, (λ e. (omega arith, omega arith), λ (p, q). omega arith))

relation_ids_lem :
    (host : Host) (n : ℕ) (buf : Bytes) (offset : ℕ) (word : Bytes) (done : List ℕ)
    → memcpy buf offset 4 ≡ ok word
    → parse_relation_ids host n buf offset done
      ≡ ok (done ++ replicate n (from_host host.byte_order word))
unfolding parse_relation_ids
relation_ids_lem host zero buf offset word done e = rw append-nil
relation_ids_lem host (suc n) buf offset word done e =
    let oid = from_host host.byte_order word in
    rw e (relation_ids_lem host n buf offset word (done ++ oid ∷ []) e ∙ rw append_assoc)

relation_ids_alike :
    (host : Host) (n : ℕ) (buf : Bytes) (offset : ℕ) (ids : List ℕ)
    → parse_relation_ids host n buf offset [] ≡ ok ids
    → (oid : ℕ) × (ids ≡ replicate n oid)
unfolding parse_relation_ids
relation_ids_alike host zero buf offset ids e = (0, ground arith)
relation_ids_alike host (suc n) buf offset ids e =
    let (word, e', _) = >>=-eq-ok (memcpy buf offset 4) _ e in
    (from_host host.byte_order word, cc (e, relation_ids_lem host (suc n) buf offset word [] e'))

read_relation_ids_alike :
    (host : Host) (n : ℕ) (buf : Bytes) (offset : ℕ) (ids : List ℕ)
    → read_relation_ids host n buf offset ≡ ok ids
    → (oid : ℕ) × (ids ≡ replicate n oid)
unfolding read_relation_ids
read_relation_ids_alike host n buf offset ids e = elim (Bool-cases (host.reserves n)) [
  | inl fits ↦ relation_ids_alike host n buf offset ids (rw fits at e)
  | inr full ↦ cc (rw full at e)
]

truncate_rest_lem :
    (host : Host) (xid : ℕ) (buf : Bytes) (offset : ℕ) (m : TruncateMessage)
    → parse_truncate_rest host xid buf offset ≡ ok m
    → (oid : ℕ) × (m.transaction_id ≡ xid) × (m.relation_ids ≡ replicate m.number_of_relations oid)
unfolding parse_truncate_rest
truncate_rest_lem host xid buf offset m e =
    let ((n, o₁), _, e₁) = >>=-eq-ok (read_uint32 buf offset) _ e in
    let (options, _, e₂) = >>=-eq-ok (byte_at buf o₁) _ e₁ in
    let (ids, e₃, e₄) = >>=-eq-ok (read_relation_ids host n buf (advance o₁ 1)) _ e₂ in
    let (oid, same) = read_relation_ids_alike host n buf (advance o₁ 1) ids e₃ in
    (oid, ground (arith, e₄), ground (arith, e₄, same))

-- A TRUNCATE that is parsed names one relation as often as it announces relations: the loop does
-- not move its cursor.
pub truncate_names_one :
    (host : Host) (buf : Bytes) (m : TruncateMessage)
    → parse_truncate host buf ≡ ok m
    → (oid : ℕ) × (m.relation_ids ≡ replicate m.number_of_relations oid)
unfolding parse_truncate
truncate_names_one host buf m e =
    let ((xid, o₁), _, e₁) = >>=-eq-ok (read_uint32 buf host.uninitialised) _ e in
    let (oid, _, same) = truncate_rest_lem host xid buf o₁ m e₁ in (oid, same)

-- Outside a streamed transaction the server sends no transaction id with a TRUNCATE. Then, even
-- with the cursor at the start, the number of relations is read as the transaction id, whenever
-- the message is parsed at all.
pub truncate_misread :
    (host : Host) (count : ℕ) (rest : Bytes) (m : TruncateMessage)
    → host.uninitialised ≡ 0
    → IsU32 count
    → length (be32 count ++ rest) < 2 ^ 64
    → parse_truncate host (be32 count ++ rest) ≡ ok m
    → m.transaction_id ≡ count
unfolding parse_truncate
truncate_misread host count rest m start h fits e =
    let buf = be32 count ++ rest in
    let here : At buf 0 buf = record { rest = refl; fits = fits; inside = omega arith } in
    let first : read_uint32 buf host.uninitialised ≡ ok (count, 4) =
      ap (read_uint32 buf) start ∙ read_uint32-At count rest h here in
    (truncate_rest_lem host count buf 4 m (rw first at e)).1
