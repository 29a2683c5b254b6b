-- ===== src/Zatca/Qr.antt =====
-- backend/src/modules/zatca/infrastructure/qr_encoder.py: the tag-length-value payload of the QR code.
-- The text encodings of Python's library are arguments.
pub mod Decoding
use alfahd_erp_system.Prelude.{
  ℕ, List, [], ◌∷◌, ◌++◌, Bool, ltb, length, if◌then◌else◌, ℤ, String, Result, ok, err, ◌>>=◌, ◌>>◌,
  raise_if, any,
}
use alfahd_erp_system.Accounting.Entities.{Error, value_error}

-- `str.encode("utf-8")`, `base64.b64encode` and `str` of a `Decimal`.
pub record Encodings : Type 0 where
  pub utf8 : String → List ℕ
  pub base64 : List ℕ → String
  pub decimal_text : ℤ → String

-- The arguments of `build_qr_payload`.
pub record QrFields : Type 0 where
  pub seller_name : String
  pub vat_number : String
  pub timestamp_iso : String
  pub invoice_total : ℤ
  pub vat_amount : ℤ
  pub invoice_hash_b64 : String
  pub include_phase2_placeholders : Bool

-- Python's `bytes` of a list of integers, which refuses one that is no byte.
unfoldable pub to_bytes : List ℕ → Result Error (List ℕ)
to_bytes ns = if any (ltb 255) ns then err (value_error "bytes must be in range(0, 256)") else ok ns

-- `_tlv`
unfoldable pub tlv : ℕ → List ℕ → Result Error (List ℕ)
tlv tag value = do
  raise_if (ltb 255 (length value)) (value_error "TLV value exceeds 255 bytes")
  head ← to_bytes (tag ∷ length value ∷ [])
  ok (head ++ value)

-- The fields in order, each under its tag.
abbrev pub placeholders : Bool → List (ℕ × List ℕ)
placeholders include = if include then (7, []) ∷ (8, []) ∷ (9, []) ∷ [] else []

abbrev pub tagged_values : Encodings → QrFields → List (ℕ × List ℕ)
tagged_values e q =
    (1, e.utf8 q.seller_name)
    ∷ (2, e.utf8 q.vat_number)
    ∷ (3, e.utf8 q.timestamp_iso)
    ∷ (4, e.utf8 (e.decimal_text q.invoice_total))
    ∷ (5, e.utf8 (e.decimal_text q.vat_amount))
    ∷ (6, e.utf8 q.invoice_hash_b64)
    ∷ placeholders q.include_phase2_placeholders

-- `b"".join(tlvs)`; the first value that raises ends it.
unfoldable pub join_tlvs : List (ℕ × List ℕ) → Result Error (List ℕ)
join_tlvs [] = ok []
join_tlvs ((tag, value) ∷ fields) =
    let rest = join_tlvs fields in do bytes ← tlv tag value; others ← rest; ok (bytes ++ others)

unfoldable pub build_qr_payload : Encodings → QrFields → Result Error String
build_qr_payload e q = do payload ← join_tlvs (tagged_values e q); ok (e.base64 payload)
