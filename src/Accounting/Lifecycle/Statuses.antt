-- ===== src/Accounting/Lifecycle/Statuses.antt =====
-- What becomes of one entry: its status moves along the diagram, and the rest of its content stays.
use mathlib.Core.Option.{some-injective}
use mathlib.Core.Path.{subst}
use alfahd_erp_system.Prelude.{
  ℕ, ◌≤◌, ◌≡◌, ◌≢◌, refl, sym, ◌∙◌, ap, true, false, some, List, [], ◌∷◌, map, ◌==◌, arith, any,
  find?, Bool-cases, inl, inr, ok, ◌⊎◌,
}
use alfahd_erp_system.Accounting.Entities.{
  Status, draft, posted, reversed, cancelled, is_draft, is_posted,
}
use alfahd_erp_system.Accounting.Store.{
  JournalEntry, JournalEntryLine, Books, get_entry, has_entry_id, add_entry, replace_entry,
  save_entry, get_lines,
}
use alfahd_erp_system.Accounting.Entries.{
  orm_entry, orm_line, mark_posted, mark_cancelled, mark_reversed, reversal_entry, reversal_line,
}
use alfahd_erp_system.Accounting.Entries.Balance.{
  IsConsistent, create_draft_entry-eq-ok, post_entry-eq-ok, cancel_draft_entry-eq-ok,
  reverse_entry-eq-ok, add_entry-eq-ok, lines_of-add_ne, require_entry-eq-ok,
  require_entry-HasBalance,
}
use alfahd_erp_system.Accounting.Lifecycle.Invariant.{Reach-IsConsistent}
use alfahd_erp_system.Accounting.Lifecycle.{
  Step, creates, posts, cancels, reverses, Reach, here, next,
}

-- The status diagram.
infix 40 ◌⟶◌
pub data ◌⟶◌ : Status → Status → Type 0 where
  stay : {s : Status} → s ⟶ s
  post : draft ⟶ posted
  cancel : draft ⟶ cancelled
  reverse : posted ⟶ reversed

-- What no call changes of an entry; the day of posting is set once, and the version only grows.
pub record IsKept (e e' : JournalEntry) : Type 0 where
  pub id : e'.id ≡ e.id
  pub company : e'.company_id ≡ e.company_id
  pub branch : e'.branch_id ≡ e.branch_id
  pub journal : e'.journal_id ≡ e.journal_id
  pub date : e'.entry_date ≡ e.entry_date
  pub reference : e'.reference ≡ e.reference
  pub description : e'.description ≡ e.description
  pub table : e'.source_table ≡ e.source_table
  pub source : e'.source_id ≡ e.source_id
  pub creator : e'.created_by ≡ e.created_by
  pub version : e.version ≤ e'.version
  pub posted_at :
      is_draft e.status ≡ false → (is_draft e'.status ≡ false) × (e'.posted_at ≡ e.posted_at)

-- The entry is still there, with its lines.
abbrev pub Persists : Books → Books → ℕ → JournalEntry → Type 0
Persists b b' i e =
    (e' : JournalEntry) × (get_entry i b' ≡ some e')
    × (get_lines i b' ≡ get_lines i b)
    × IsKept e e'
    × (e.status ⟶ e'.status)

IsKept-refl : (e : JournalEntry) → IsKept e e
IsKept-refl e = record {
  id = refl;
  company = refl;
  branch = refl;
  journal = refl;
  date = refl;
  reference = refl;
  description = refl;
  table = refl;
  source = refl;
  creator = refl;
  version = omega arith;
  posted_at = λ n. (n, refl);
}

IsKept-trans : {e e' e'' : JournalEntry} → IsKept e e' → IsKept e' e'' → IsKept e e''
IsKept-trans k l = record {
  id = l.id ∙ k.id;
  company = l.company ∙ k.company;
  branch = l.branch ∙ k.branch;
  journal = l.journal ∙ k.journal;
  date = l.date ∙ k.date;
  reference = l.reference ∙ k.reference;
  description = l.description ∙ k.description;
  table = l.table ∙ k.table;
  source = l.source ∙ k.source;
  creator = l.creator ∙ k.creator;
  version = omega (arith, k.version, l.version);
  posted_at = λ n. let (m, p) = k.posted_at n in let (o, q) = l.posted_at m in (o, q ∙ p);
}

posted-IsKept :
    (now : ℕ) (e : JournalEntry) → is_draft e.status ≡ true → IsKept e (mark_posted now e)
posted-IsKept now e h = record {
  id = refl;
  company = refl;
  branch = refl;
  journal = refl;
  date = refl;
  reference = refl;
  description = refl;
  table = refl;
  source = refl;
  creator = refl;
  version = omega arith;
  posted_at = λ n. absurd (cc);
}

cancelled-IsKept : (e : JournalEntry) → IsKept e (mark_cancelled e)
cancelled-IsKept e = record {
  id = refl;
  company = refl;
  branch = refl;
  journal = refl;
  date = refl;
  reference = refl;
  description = refl;
  table = refl;
  source = refl;
  creator = refl;
  version = omega arith;
  posted_at = λ n. (refl, refl);
}

reversed-IsKept : (new_id : ℕ) (e : JournalEntry) → IsKept e (mark_reversed new_id e)
reversed-IsKept new_id e = record {
  id = refl;
  company = refl;
  branch = refl;
  journal = refl;
  date = refl;
  reference = refl;
  description = refl;
  table = refl;
  source = refl;
  creator = refl;
  version = omega arith;
  posted_at = λ n. (refl, refl);
}

draft-posts : (s : Status) → is_draft s ≡ true → s ⟶ posted
draft-posts draft h = post
draft-posts posted h = cc
draft-posts reversed h = cc
draft-posts cancelled h = cc

draft-cancels : (s : Status) → is_draft s ≡ true → s ⟶ cancelled
draft-cancels draft h = cancel
draft-cancels posted h = cc
draft-cancels reversed h = cc
draft-cancels cancelled h = cc

posted-reverses : (s : Status) → is_posted s ≡ true → s ⟶ reversed
posted-reverses posted h = reverse
posted-reverses draft h = cc
posted-reverses reversed h = cc
posted-reverses cancelled h = cc

find-replace_self :
    (x e : JournalEntry) (es : List JournalEntry)
    → find? (has_entry_id x.id) es ≡ some e
    → find? (has_entry_id x.id) (replace_entry x es) ≡ some x
find-replace_self x e [] h = cc
find-replace_self x e (y ∷ ys) h = ground (arith, find-replace_self x e ys)

find-replace_ne :
    (i : ℕ) (x : JournalEntry) (es : List JournalEntry)
    → x.id ≢ i
    → find? (has_entry_id i) (replace_entry x es) ≡ find? (has_entry_id i) es
find-replace_ne i x [] h = refl
find-replace_ne i x (y ∷ ys) h = ground (arith, find-replace_ne i x ys)

-- A save moves the saved entry along the diagram and leaves the others.
save_entry-Persists :
    (x e₀ : JournalEntry) (b : Books)
    → get_entry x.id b ≡ some e₀
    → IsKept e₀ x
    → e₀.status ⟶ x.status
    → (i : ℕ) (e : JournalEntry) → get_entry i b ≡ some e
    → Persists b (save_entry x b) i e
unfolding get_entry save_entry get_lines
save_entry-Persists x e₀ b found kept edge i e got = elim (Bool-cases (x.id == i)) [
  | inl same ↦
      let id : x.id ≡ i = ground arith in
      let was : e₀ ≡ e =
        some-injective _ _
          (sym found ∙ ap (λ (k : ℕ). find? (has_entry_id k) b.entries) id ∙ got) in
      (
        x,
        subst (λ (k : ℕ). find? (has_entry_id k) (replace_entry x b.entries) ≡ some x) id
            (find-replace_self x e₀ b.entries found),
        refl,
        subst (λ (y : JournalEntry). IsKept y x) was kept,
        subst (λ (y : JournalEntry). y.status ⟶ x.status) was edge,
      )
  | inr other ↦ (e, find-replace_ne i x b.entries (ground arith) ∙ got, refl, IsKept-refl e, stay)
]

found-ne :
    (i n : ℕ) (es : List JournalEntry) {e : JournalEntry}
    → find? (has_entry_id i) es ≡ some e
    → any (has_entry_id n) es ≡ false
    → i ≢ n
found-ne i n [] f h = cc
found-ne i n (x ∷ xs) {e} f h = ground (arith, found-ne i n xs {e = e})

-- An insertion leaves every entry as it was.
add_entry-keeps :
    (x : JournalEntry) (ls : List JournalEntryLine) (b : Books) {r : JournalEntry × Books}
    → add_entry x ls b ≡ ok r
    → (i : ℕ) (e : JournalEntry) → get_entry i b ≡ some e
    → (get_entry i r.1 ≡ some e) × (get_lines i r.1 ≡ get_lines i b)
unfolding get_entry get_lines
add_entry-keeps x ls b eq i e got =
    let (fresh, done) = add_entry-eq-ok x ls b eq in
    let ne = found-ne i x.id b.entries {e = e} got fresh in
    rw done (ground (arith, got), lines_of-add_ne x.id i ls b.lines ne)

-- In consistent books, every committed call keeps every entry with its lines and content, and moves
-- its status, if at all, from draft to posted or cancelled, or from posted to reversed.
pub Step-Persists :
    {b b' : Books}
    → IsConsistent b
    → Step b b'
    → (i : ℕ) (e : JournalEntry) → get_entry i b ≡ some e
    → Persists b b' i e
Step-Persists {b} h (creates d x eq) i e got =
    let (j, ls, _, _, _, added) = create_draft_entry-eq-ok d b eq in
    let (still, same) =
      add_entry-keeps (orm_entry d j) (map (orm_line d.company_id d.new_id) ls) b added i e got in
    (e, still, same, IsKept-refl e, stay)
Step-Persists {b} h (posts k c now x eq) i e got =
    let (e₀, found, was, done) = post_entry-eq-ok k c now b eq in
    let (got₀, _) = require_entry-eq-ok k c b found in
    let (_, id) = require_entry-HasBalance k c b h found in
    subst (λ (s : Books). Persists b s i e) (sym (ap (λ (q : JournalEntry × Books). q.1) done))
      (save_entry-Persists (mark_posted now e₀) e₀ b (rw id got₀) (posted-IsKept now e₀ was)
        (draft-posts e₀.status was) i e got)
Step-Persists {b} h (cancels k c x eq) i e got =
    let (e₀, found, was, done) = cancel_draft_entry-eq-ok k c b eq in
    let (got₀, _) = require_entry-eq-ok k c b found in
    let (_, id) = require_entry-HasBalance k c b h found in
    subst (λ (s : Books). Persists b s i e) (sym (ap (λ (q : JournalEntry × Books). q.1) done))
      (save_entry-Persists (mark_cancelled e₀) e₀ b (rw id got₀) (cancelled-IsKept e₀)
        (draft-cancels e₀.status was) i e got)
Step-Persists {b} h (reverses w k c u new_id today now x eq) i e got =
    let (e₀, p, found, was, added, done) = reverse_entry-eq-ok w k c u new_id today now b eq in
    let (got₀, _) = require_entry-eq-ok k c b found in
    let (_, id) = require_entry-HasBalance k c b h found in
    let rv = reversal_entry w e₀ new_id today now u in
    let ls = map (reversal_line w c new_id) (get_lines k b) in
    let (still, same) = add_entry-keeps rv ls b added i e got in
    let (there, _) = add_entry-keeps rv ls b added k e₀ got₀ in
    let (e', now_is, lines, kept, edge) =
      save_entry-Persists (mark_reversed new_id e₀) e₀ p.1 (rw id there) (reversed-IsKept new_id e₀)
        (posted-reverses e₀.status was) i e still in
    subst (λ (s : Books). Persists b s i e) (sym (ap (λ (q : JournalEntry × Books). q.1) done))
      (e', now_is, lines ∙ same, kept, edge)

-- Never back to draft, and from posted only to posted or reversed.
⟶-posted : {s t : Status} → s ⟶ t → (s ≡ posted) ⊎ (s ≡ reversed) → (t ≡ posted) ⊎ (t ≡ reversed)
⟶-posted stay h = h
⟶-posted post h = inl refl
⟶-posted cancel h = absurd (ground arith)
⟶-posted reverse h = inr refl

-- From consistent books, an entry that is posted or reversed stays in the ledger for good: after any
-- sequence of committed calls it is still found, posted or reversed, with the same lines, id, company,
-- branch, journal, date, reference, description, source table and row, creator and time of posting, and
-- its version has not fallen. Its status and the entry that reversed it may change.
pub Reach-posted_immutable :
    {b b' : Books}
    → IsConsistent b
    → Reach b b'
    → (i : ℕ) (e : JournalEntry) → get_entry i b ≡ some e
    → (e.status ≡ posted) ⊎ (e.status ≡ reversed)
    → (e' : JournalEntry) × (get_entry i b' ≡ some e')
      × (get_lines i b' ≡ get_lines i b)
      × IsKept e e'
      × ((e'.status ≡ posted) ⊎ (e'.status ≡ reversed))
Reach-posted_immutable h here i e got was = (e, got, refl, IsKept-refl e, was)
Reach-posted_immutable {b} h (next r s) i e got was =
    let (e₁, got₁, lines₁, kept₁, was₁) = Reach-posted_immutable h r i e got was in
    let (e₂, got₂, lines₂, kept₂, edge) = Step-Persists (Reach-IsConsistent h r) s i e₁ got₁ in
    (e₂, got₂, lines₂ ∙ lines₁, IsKept-trans kept₁ kept₂, ⟶-posted edge was₁)
