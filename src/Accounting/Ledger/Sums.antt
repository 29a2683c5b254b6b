-- ===== src/Accounting/Ledger/Sums.antt =====
-- Sums over the lines that a query selects: over entries one by one, and under the changes that the
-- journal services make.
use alfahd_erp_system.Prelude.{
  ℕ, ◌≡◌, refl, sym, ◌∙◌, ap, Bool, false, some, List, [], ◌∷◌, ◌++◌, map, ◌==◌, arith,
  if◌then◌else◌, ℤ, pos, ◌+ℤ◌, ◌-ℤ◌, +ℤ_assoc, int_laws, any, find?, keep, sum_of, sum_of-append,
  Bool-cases, inl, inr,
}
use alfahd_erp_system.Accounting.Store.{
  JournalEntry, JournalEntryLine, has_entry_id, lines_of, set_entry_id, replace_entry,
}
use alfahd_erp_system.Accounting.Entries.Rows.{IsDistinct, fresh-ne, replace_entry-fresh}
use alfahd_erp_system.Accounting.Entries.Balance.{lines_of-add_ne}
use alfahd_erp_system.Accounting.Ledger.{ledger_lines}

-- What a line that the filter `q` keeps adds to a balance.
abbrev pub net_of : (JournalEntryLine → Bool) → JournalEntryLine → ℤ
net_of q l = if q l then l.debit -ℤ l.credit else pos 0

pub keep-net :
    (q : JournalEntryLine → Bool) (ls : List JournalEntryLine)
    → sum_of (λ l. l.debit) (keep q ls) -ℤ sum_of (λ l. l.credit) (keep q ls) ≡ sum_of (net_of q) ls
keep-net q [] = omega int_laws
keep-net q (l ∷ ls) = elim (Bool-cases (q l)) [
  | inl kept ↦ rw (kept, ← keep-net q ls) (omega int_laws)
  | inr left ↦ rw (left, keep-net q ls) (omega int_laws)
]

regroup : (u s t f g : ℤ) → s +ℤ f ≡ t +ℤ g → u +ℤ s +ℤ f ≡ u +ℤ t +ℤ g
regroup u s t f g h = +ℤ_assoc u s f ∙ ap (◌+ℤ◌ u) h ∙ sym (+ℤ_assoc u t g)

module _ (p : JournalEntry → Bool) (f : JournalEntryLine → ℤ) where
  -- What an entry adds to a sum over the selected lines.
  abbrev pub effect : JournalEntry → List JournalEntryLine → ℤ
  effect e ls = if p e then sum_of f (lines_of e.id ls) else pos 0

  pub sum_of-ledger_lines :
      (es : List JournalEntry) (ls : List JournalEntryLine)
      → sum_of f (ledger_lines p es ls) ≡ sum_of (λ e. effect e ls) es
  sum_of-ledger_lines [] ls = refl
  sum_of-ledger_lines (e ∷ es) ls = elim (Bool-cases (p e)) [
    | inl yes' ↦
        rw yes' (
          sum_of-append f (lines_of e.id ls) (ledger_lines p es ls)
          ∙ rw (sum_of-ledger_lines es ls))
    | inr no' ↦ rw (no', sum_of-ledger_lines es ls) (omega int_laws)
  ]

  -- New lines under a fresh id are invisible to the entries that were there.
  pub effect-add :
      (i : ℕ) (new old : List JournalEntryLine) (es : List JournalEntry)
      → any (has_entry_id i) es ≡ false
      → sum_of (λ e. effect e (map (set_entry_id i) new ++ old)) es ≡ sum_of (λ e. effect e old) es
  effect-add i new old [] fresh = refl
  effect-add i new old (e ∷ es) fresh =
      let (ne, fresh') = fresh-ne i e es fresh in
      rw (lines_of-add_ne i e.id new old ne, effect-add i new old es fresh')

  -- Saving an entry exchanges its effect.
  pub effect-replace_entry :
      (e e' : JournalEntry) (es : List JournalEntry) (ls : List JournalEntryLine)
      → IsDistinct es
      → find? (has_entry_id e'.id) es ≡ some e
      → sum_of (λ x. effect x ls) (replace_entry e' es) +ℤ effect e ls
        ≡ sum_of (λ x. effect x ls) es +ℤ effect e' ls
  effect-replace_entry e e' [] ls d h = cc
  effect-replace_entry e e' (x ∷ xs) ls d h = elim (Bool-cases (x.id == e'.id)) [
    | inl same ↦
        let found : x ≡ e = ground arith in
        let id : x.id ≡ e'.id = ground arith in
        let absent : any (has_entry_id e'.id) xs ≡ false = rw id at d.0 in
        rw (same, replace_entry-fresh e' xs absent, ← found) (omega int_laws)
    | inr other ↦
        let rest = effect-replace_entry e e' xs ls d.1 (rw other at h) in
        rw other (regroup (effect x ls) _ _ _ _ rest)
  ]
