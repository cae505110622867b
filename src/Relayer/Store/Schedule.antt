-- ===== src/Relayer/Store/Schedule.antt =====
-- Which job the query of `next_due_job` in services/relayer/src/db.rs picks.
use digital_objects_network.Relayer.Job.{RelayJob}
use digital_objects_network.Relayer.Store.{is_due, comes_before, next_due_job, due_key, earlier}
use mathlib.Core.List.{Mem, mem-cons_self, mem-cons_of_mem}
use digital_objects_network.Prelude.Int.{pos_part, neg_part}
use digital_objects_network.Prelude.{
  ℕ, ℤ, List, some, none, Option, true, false, ◌≡◌, All, arith, ◌+◌, Bool, ltb, leb, ◌&&◌, ◌||◌,
  ◌∷◌, Bool-cases, inl, All-map, inr, [],
}

-- The order on keys and creation times, over numbers.
abbrev lex : ℕ → ℕ → ℕ → ℕ → ℕ → ℕ → ℕ → ℕ → Bool
lex kp kn k'p k'n cp cn c'p c'n =
    ltb (kp + k'n) (k'p + kn) || (leb (kp + k'n) (k'p + kn) && ltb (cp + c'n) (c'p + cn))

lex_trans :
    (xp xn bp bn rp rn : ℕ) (up un vp vn wp wn : ℕ)
    → lex xp xn bp bn up un vp vn ≡ false
    → lex bp bn rp rn vp vn wp wn ≡ false
    → lex xp xn rp rn up un wp wn ≡ false
lex_trans xp xn bp bn rp rn up un vp vn wp wn h k = ground arith

not_before_trans :
    (x b r : RelayJob)
    → comes_before x b ≡ false
    → comes_before b r ≡ false
    → comes_before x r ≡ false
not_before_trans x b r h k =
    let kx = due_key x.next_attempt_at x.created_at in
    let kb = due_key b.next_attempt_at b.created_at in
    let kr = due_key r.next_attempt_at r.created_at in
    lex_trans (pos_part kx) (neg_part kx) (pos_part kb) (neg_part kb) (pos_part kr) (neg_part kr)
      (pos_part x.created_at) (neg_part x.created_at) (pos_part b.created_at)
      (neg_part b.created_at) (pos_part r.created_at) (neg_part r.created_at) h k

lex_asym :
    (xp xn bp bn up un vp vn : ℕ)
    → lex xp xn bp bn up un vp vn ≡ true
    → lex bp bn xp xn vp vn up un ≡ false
lex_asym xp xn bp bn up un vp vn h = ground arith

not_before_asym : (x b : RelayJob) → comes_before x b ≡ true → comes_before b x ≡ false
not_before_asym x b h =
    let kx = due_key x.next_attempt_at x.created_at in
    let kb = due_key b.next_attempt_at b.created_at in
    lex_asym (pos_part kx) (neg_part kx) (pos_part kb) (neg_part kb) (pos_part x.created_at)
      (neg_part x.created_at) (pos_part b.created_at) (neg_part b.created_at) h

lex_irrefl : (xp xn up un : ℕ) → lex xp xn xp xn up un up un ≡ false
lex_irrefl xp xn up un = ground arith

not_before_self : (r : RelayJob) → comes_before r r ≡ false
not_before_self r =
    let kr = due_key r.next_attempt_at r.created_at in
    lex_irrefl (pos_part kr) (neg_part kr) (pos_part r.created_at) (neg_part r.created_at)

-- `a` is the pick of the rows: due, and no due row comes before it. Without a pick no row is due.
unfoldable pub IsPick : ℤ → List RelayJob → Option RelayJob → Type 0
IsPick now rows none = All (λ row. is_due now row ≡ false) rows
IsPick now rows (some a) =
    (is_due now a ≡ true)
    × Mem a rows
    × All (λ row. is_due now row ≡ true → comes_before row a ≡ false) rows

IsPick-first :
    (now : ℤ) (row : RelayJob) (rows : List RelayJob) (rest : Option RelayJob)
    → is_due now row ≡ true
    → IsPick now rows rest
    → IsPick now (row ∷ rows) (earlier row rest)
unfolding IsPick
IsPick-first now row rows none due h =
    (due, mem-cons_self, ((λ _. not_before_self row), All-map (λ r not_due is_due. cc) rows h))
IsPick-first now row rows (some best) due h = elim (Bool-cases (comes_before best row)) [
  | inl e ↦ rw e (h.0, mem-cons_of_mem row h.1, ((λ _. not_before_asym best row e), h.2))
  | inr e ↦ rw e (
    due,
    mem-cons_self,
    ((λ _. not_before_self row), All-map (λ r f d. not_before_trans r best row (f d) e) rows h.2),
  )
]

IsPick-later :
    (now : ℤ) (row : RelayJob) (rows : List RelayJob) (rest : Option RelayJob)
    → is_due now row ≡ false
    → IsPick now rows rest
    → IsPick now (row ∷ rows) rest
unfolding IsPick
IsPick-later now row rows none e h = (e, h)
IsPick-later now row rows (some best) e h = (h.0, mem-cons_of_mem row h.1, ((λ due. cc), h.2))

-- The row that the query of `next_due_job` picks is one of the table, is due, and no due row comes
-- before it by next attempt and creation time; when it picks none, no row is due.
pub next_due_job-IsPick : (now : ℤ) (rows : List RelayJob) → IsPick now rows (next_due_job now rows)
unfolding next_due_job IsPick
next_due_job-IsPick now [] = tt
next_due_job-IsPick now (row ∷ rows) = elim (Bool-cases (is_due now row)) [
  | inl e ↦
      rw e (IsPick-first now row rows (next_due_job now rows) e (next_due_job-IsPick now rows))
  | inr e ↦
      rw e (IsPick-later now row rows (next_due_job now rows) e (next_due_job-IsPick now rows))
]
