-- ===== src/Worker/Calls.antt =====
-- The calls that the services of worker/services make of the task repository, and code that makes them: the
-- calls in their order, and the value or the exception at the end.
use rest_api_plagiarism.Prelude.{
  ℕ, String, ◌≡◌, ◌≢◌, refl, sym, Option, none, some, List, [], ◌∷◌, ◌++◌, append_assoc,
}
use rest_api_plagiarism.Detection.Match.{Ratio}

-- The dict of a file; an empty text is a missing key.
pub record FileInfo : Type 0 where
  pub id : String
  pub hash : String
  pub file_hash : String
  pub path : String

abbrev pub Pair : Type 0
Pair = FileInfo × (FileInfo × Ratio)

-- A row of `bulk_insert_results`; its matches are empty, and its similarity is not rounded here.
pub record Row : Type 0 where
  pub file_a_id : String
  pub file_b_id : String
  pub ast_similarity : Ratio

-- The statuses of a task in progress.
pub data Status : Type 0 where
  indexing finding_intra_pairs finding_cross_pairs storing_results : Status

-- `update` with the processed and the total pairs, and the updates of the statuses "completed", with
-- the similarity, the total and the processed pairs, and "failed".
pub data Call : Type 0 where
  update : Status → ℕ → ℕ → Call
  completed : Ratio → ℕ → ℕ → Call
  failed : String → Call
  insert : List Row → Call

pub data Outcome (A : Type 0) : Type 0 where
  done : A → Outcome A
  raised : String → Outcome A

abbrev pub Act : Type 0 → Type 0
Act A = List Call × Outcome A

-- What the repository answers: the exception that a call raises, if any, and `get_max_similarity`.
pub record Repository : Type 0 where
  pub refuse : Call → Option String
  pub max_similarity : Outcome Ratio

abbrev pub after : {B : Type 0} → List Call → Act B → Act B
after cs (ds, o) = (cs ++ ds, o)

module _ {A B : Type 0} where
  -- The rest of the code, which an exception skips.
  infixl 20 ◌>>=◌
  abbrev pub ◌>>=◌ : Act A → (A → Act B) → Act B
  (cs, done a) >>= f = after cs (f a)
  (cs, raised e) >>= f = (cs, raised e)

abbrev pub lift : {A : Type 0} → Outcome A → Act A
lift o = ([], o)

abbrev pub skip : Act Unit
skip = ([], done tt)

abbrev pub answered : Call → Option String → Act Unit
answered c none = (c ∷ [], done tt)
answered c (some e) = ([], raised e)

abbrev pub perform : Repository → Call → Act Unit
perform repo c = answered c (repo.refuse c)

-- The rows that a call inserts, and those that the calls insert in turn.
abbrev pub rows_of : Call → List Row
rows_of (insert rs) = rs
rows_of c = []

abbrev pub inserted : List Call → List Row
inserted [] = []
inserted (c ∷ cs) = rows_of c ++ inserted cs

pub inserted-append : (cs ds : List Call) → inserted (cs ++ ds) ≡ inserted cs ++ inserted ds
inserted-append [] ds = refl
inserted-append (c ∷ cs) ds =
    rw (inserted-append cs ds) (sym (append_assoc (rows_of c) (inserted cs) (inserted ds)))

pub raised≢done : {A : Type 0} {e : String} {a : A} → raised e ≢ done a
raised≢done h = cc

-- Code that ends without an exception ran its first part to a value and its second part on that value.
pub bind-done :
    {A B : Type 0} (m : Act A) (f : A → Act B) (b : B)
    → (m >>= f).1 ≡ done b
    → (a : A) × ((m.1 ≡ done a) × (((f a).1 ≡ done b) × ((m >>= f).0 ≡ m.0 ++ (f a).0)))
bind-done (cs, done a) f b h = (a, (refl, (h, refl)))
bind-done (cs, raised e) f b h = absurd (raised≢done h)

pub perform-done :
    (repo : Repository) (c : Call) → (perform repo c).1 ≡ done tt → (perform repo c).0 ≡ c ∷ []
perform-done repo c h = answered-done (repo.refuse c) h
  where
    answered-done : (o : Option String) → (answered c o).1 ≡ done tt → (answered c o).0 ≡ c ∷ []
    answered-done none h = refl
    answered-done (some e) h = absurd (raised≢done h)
