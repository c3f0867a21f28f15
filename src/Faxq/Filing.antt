-- ===== src/Faxq/Filing.antt =====
-- What deleteRequest leaves behind (faxd/faxQueueApp.c++).
use hylafaxplus.Prelude.{
  ℕ, zero, suc, Bool, true, false, List, [], ◌∷◌, if◌then◌else◌, ◌≡◌, refl, ap, ◌∙◌, arith, ◌⊎◌,
  Bool-cases, inl, inr,
}
use mathlib.Core.List.{reverse_aux}
use hylafaxplus.Faxq.State.{FaxItem, FaxRequest, JobStatus, absent, good, Server, Env, modify, emit}
use hylafaxplus.Faxq.Request.{
  is_saved_op, is_fax, rename_saved, drop_faxes, final_state, tell, notify_sender, move_to_doneq,
  purge_file, delete_request,
}

-- How many formatted documents come first.
abbrev pub faxes_first : List FaxItem → ℕ
faxes_first [] = 0
faxes_first (y ∷ ys) = let n = faxes_first ys in if is_fax y.op then suc n else 0

abbrev pub times : (ℕ → ℕ) → ℕ → ℕ → ℕ
times f zero x = x
times f (suc n) x = times f n (f x)

-- The document of a saved source has its suffixes taken off, one for each of n formatted documents.
abbrev pub unsuffixed : (ℕ → ℕ) → ℕ → FaxItem → FaxItem
unsuffixed base n x = if is_saved_op x.op then record x { item = times base n x.item } else x

-- The sources among the items, that is all but the formatted documents, in their order.
abbrev pub sources : (ℕ → ℕ) → List FaxItem → List FaxItem
sources base [] = []
sources base (x ∷ xs) =
    let rest = sources base xs in
    if is_fax x.op then rest else unsuffixed base (faxes_first xs) x ∷ rest

abbrev rename_times : (ℕ → ℕ) → ℕ → List FaxItem → List FaxItem
rename_times base zero xs = xs
rename_times base (suc n) xs = rename_times base n (rename_saved base xs)

rename_times-head :
    (base : ℕ → ℕ) (n : ℕ) (x : FaxItem) (kept : List FaxItem)
    → rename_times base n (x ∷ kept) ≡ unsuffixed base n x ∷ kept
unfolding rename_saved
rename_times-head base zero x kept = elim (Bool-cases (is_saved_op x.op)) [
  | inl saved ↦ rw saved refl
  | inr plain ↦ rw plain refl
]
rename_times-head base (suc n) x kept = elim (Bool-cases (is_saved_op x.op)) [
  | inl saved ↦
      let named = rename_times-head base n (record x { item = base x.item }) kept in
      ground (arith, saved, named)
  | inr plain ↦ let same = rename_times-head base n x kept in ground (arith, plain, same)
]

drop_faxes-sources :
    (base : ℕ → ℕ) (kept xs : List FaxItem)
    → drop_faxes base kept xs
      ≡ reverse_aux (rename_times base (faxes_first xs) kept) (sources base xs)
unfolding drop_faxes
drop_faxes-sources base kept [] = refl
drop_faxes-sources base kept (x ∷ xs) = elim (Bool-cases (is_fax x.op)) [
  | inl fax ↦ rw fax (drop_faxes-sources base (rename_saved base kept) xs)
  | inr source ↦ rw source (
      drop_faxes-sources base (x ∷ kept) xs
      ∙ ap (λ ks. reverse_aux ks (sources base xs))
          (rename_times-head base (faxes_first xs) x kept))
]

rename_times-none : (base : ℕ → ℕ) (n : ℕ) → rename_times base n [] ≡ []
unfolding rename_saved
rename_times-none base zero = refl
rename_times-none base (suc n) = rename_times-none base n

kept-sources : (base : ℕ → ℕ) (xs : List FaxItem) → drop_faxes base [] xs ≡ sources base xs
kept-sources base xs =
    drop_faxes-sources base [] xs
    ∙ ap (λ ks. reverse_aux ks (sources base xs)) (rename_times-none base (faxes_first xs))

-- For a job whose file is in the queue directory, whatever the request is: deleteRequest leaves no
-- file there. If the file can be renamed, the job's file is then the one in the doneq directory; its request has the final state
-- for the reason given and the time of the deletion, and its items are the sources, in their order,
-- each with its fields as they were, but that the document of a saved source has lost a suffix for
-- each formatted document right behind it. If it cannot be renamed, the doneq directory is as before.
pub delete_request-file :
    (e : Env) (j : ℕ) (r : FaxRequest) (why : JobStatus) (force : Bool) (s : Server)
    → (s.job j).in_doneq ≡ false
    → ((delete_request e j r why force s).file j ≡ absent)
      × (((e.rename_done j ≡ true)
            × (q : FaxRequest) × ((delete_request e j r why force s).doneq j ≡ good q)
            × (((delete_request e j r why force s).job j).in_doneq ≡ true)
            × (q.state ≡ final_state why)
            × (q.tts ≡ e.now)
            × (q.items ≡ sources e.base_name r.items))
          ⊎ ((e.rename_done j ≡ false) × ((delete_request e j r why force s).doneq ≡ s.doneq)))
unfolding delete_request move_to_doneq tell notify_sender purge_file modify emit
delete_request-file e j r why force s queued = (
  ground (arith, queued),
  elim (Bool-cases (e.rename_done j)) [
    | inl renamed ↦ inl (
      renamed,
      record r {
        items = drop_faxes e.base_name [] r.items;
        state = final_state why;
        pri = (s.job j).pri;
        tts = e.now;
      },
      ground arith,
      ground arith,
      refl,
      refl,
      kept-sources e.base_name r.items,
    )
    | inr kept ↦ inr (kept, ground (arith, queued))
  ],
)
