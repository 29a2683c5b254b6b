-- ===== src/Zatca/Qr/Decoding.antt =====
-- A reader of tag-length-value bytes, and the fields of the published format that it is to find.
use alfahd_erp_system.Prelude.{
  if◌then◌else◌, ◌⊎◌, false, err, All-append, ◌≤◌, any, Bool, true, All, ℕ, zero, suc, ◌≡◌, refl,
  List, [], ◌∷◌, ◌++◌, Bool-cases, inl, inr, ltb, length, arith, String, Option, none, some, ok,
}
use alfahd_erp_system.Zatca.Qr.{
  value_error, to_bytes, Encodings, QrFields, tlv, join_tlvs, build_qr_payload,
}

-- The first n bytes and the rest, if there are n.
abbrev split_at : ℕ → List ℕ → Option (List ℕ × List ℕ)
split_at zero bs = some ([], bs)
split_at (suc n) [] = none
split_at (suc n) (b ∷ bs) = elim (split_at n bs) [
  | none ↦ none
  | some (v, rest) ↦ some (b ∷ v, rest)
]

-- A reader of the published format: a tag, a length, as many bytes. Each round reads two bytes or more.
abbrev with_field : ℕ → List ℕ → Option (List (ℕ × List ℕ)) → Option (List (ℕ × List ℕ))
with_field tag v none = none
with_field tag v (some fs) = some ((tag, v) ∷ fs)

abbrev after_split :
    ℕ
    → Option (List ℕ × List ℕ)
    → (List ℕ → Option (List (ℕ × List ℕ)))
    → Option (List (ℕ × List ℕ))
after_split tag none next = none
after_split tag (some (v, rest)) next = with_field tag v (next rest)

pub read_fields : ℕ → List ℕ → Option (List (ℕ × List ℕ))
read_fields zero [] = some []
read_fields zero (tag ∷ bs) = none
read_fields (suc fuel) [] = some []
read_fields (suc fuel) (tag ∷ []) = none
read_fields (suc fuel) (tag ∷ n ∷ bs) = after_split tag (split_at n bs) (read_fields fuel)

split_at-append : (v rest : List ℕ) → split_at (length v) (v ++ rest) ≡ some (v, rest)
split_at-append [] rest = refl
split_at-append (b ∷ v) rest = rw (split_at-append v rest)

abbrev pub IsByte : ℕ → Type 0
IsByte n = n ≤ 255

-- `utf8` gives bytes.
abbrev pub IsEncoding : Encodings → Type 0
IsEncoding e = (text : String) → All IsByte (e.utf8 text)

-- What a reader of the published format is to find: seller, VAT number, time, total, VAT and hash under the
-- tags 1 to 6, and empty placeholders under 7 to 9 when they are asked for.
abbrev pub published : Encodings → QrFields → List (ℕ × List ℕ)
published e q =
    (1, e.utf8 q.seller_name)
    ∷ (2, e.utf8 q.vat_number)
    ∷ (3, e.utf8 q.timestamp_iso)
    ∷ (4, e.utf8 (e.decimal_text q.invoice_total))
    ∷ (5, e.utf8 (e.decimal_text q.vat_amount))
    ∷ (6, e.utf8 q.invoice_hash_b64)
    ∷ (if q.include_phase2_placeholders then (7, []) ∷ (8, []) ∷ (9, []) ∷ [] else [])

-- The encoder's answers to a list of fields: bytes that the reader takes apart again, one length a byte, or
-- the refusal of a value that is too long.
abbrev pub is_long : ℕ × List ℕ → Bool
is_long f = ltb 255 (length f.1)

abbrev IsRead : List (ℕ × List ℕ) → List ℕ → Type 0
IsRead fields bytes = All IsByte bytes × (read_fields (length fields) bytes ≡ some fields)

abbrev Answer : List (ℕ × List ℕ) → Type 0
Answer fields =
    ((bytes : List ℕ) × (join_tlvs fields ≡ ok bytes)
      × (any is_long fields ≡ false)
      × IsRead fields bytes)
    ⊎ (join_tlvs fields ≡ err (value_error "TLV value exceeds 255 bytes"))
      × (any is_long fields ≡ true)

-- Fields whose tags and values are bytes.
abbrev IsField : ℕ × List ℕ → Type 0
IsField f = IsByte f.0 × All IsByte f.1

tlv-fits :
    (tag : ℕ) (v : List ℕ)
    → IsByte tag
    → ltb 255 (length v) ≡ false
    → tlv tag v ≡ ok (tag ∷ length v ∷ v)
unfolding tlv to_bytes
tlv-fits tag v small fits = let low : ltb 255 tag ≡ false = ground arith in rw fits (rw low refl)

tlv-long :
    (tag : ℕ) (v : List ℕ)
    → ltb 255 (length v) ≡ true
    → tlv tag v ≡ err (value_error "TLV value exceeds 255 bytes")
unfolding tlv
tlv-long tag v long = rw long refl

join_tlvs-Answer : (fields : List (ℕ × List ℕ)) → All IsField fields → Answer fields
unfolding join_tlvs read_fields
join_tlvs-Answer [] h = inl ([], refl, refl, (tt, refl))
join_tlvs-Answer ((tag, v) ∷ fields) h = elim (Bool-cases (ltb 255 (length v))) [
  | inl long ↦ inr (rw (tlv-long tag v long) refl, rw long refl)
  | inr fits ↦ elim (join_tlvs-Answer fields h.1) [
    | inl (others, joined, short, (small, read)) ↦ inl (
      tag ∷ length v ∷ (v ++ others),
      rw (tlv-fits tag v h.0.0 fits, joined) refl,
      rw fits short,
      (
        (h.0.0, (ground arith, All-append IsByte v others h.0.1 small)),
        rw (split_at-append v others, read) refl,
      ),
    )
    | inr (refused, long) ↦ inr (rw (tlv-fits tag v h.0.0 fits, refused) refl, rw fits long)
  ]
]

placeholders-IsField :
    (asked : Bool) → All IsField (if asked then (7, []) ∷ (8, []) ∷ (9, []) ∷ [] else [])
placeholders-IsField true = ground arith
placeholders-IsField false = tt

published-IsField : (e : Encodings) (q : QrFields) → IsEncoding e → All IsField (published e q)
published-IsField e q h = (
  (omega arith, h q.seller_name),
  (
    (omega arith, h q.vat_number),
    (
      (omega arith, h q.timestamp_iso),
      (
        (omega arith, h (e.decimal_text q.invoice_total)),
        (
          (omega arith, h (e.decimal_text q.vat_amount)),
          ((omega arith, h q.invoice_hash_b64), placeholders-IsField q.include_phase2_placeholders),
        ),
      ),
    ),
  ),
)

-- When the text encoding gives bytes, the payload is the base64 of bytes from which a reader of tags,
-- lengths and values gets the published fields back, each under its own tag and in order, and every field
-- has at most 255 bytes; or the payload is refused, and some field has more than 255 bytes.
pub build_qr_payload_decodes :
    (e : Encodings) (q : QrFields)
    → IsEncoding e
    → ((bytes : List ℕ) × (build_qr_payload e q ≡ ok (e.base64 bytes))
        × (any is_long (published e q) ≡ false)
        × (All IsByte bytes × (read_fields (length (published e q)) bytes ≡ some (published e q))))
      ⊎ (build_qr_payload e q ≡ err (value_error "TLV value exceeds 255 bytes"))
        × (any is_long (published e q) ≡ true)
unfolding build_qr_payload
build_qr_payload_decodes e q h = elim (join_tlvs-Answer (published e q) (published-IsField e q h)) [
  | inl (bytes, joined, short, read) ↦ inl (bytes, rw joined refl, short, read)
  | inr (refused, long) ↦ inr (rw refused refl, long)
]
