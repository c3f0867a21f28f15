-- ===== src/Faxq/Ring/Refines.antt =====
-- The rings (faxd/QLink.c++, JobIter of faxd/Job.h) against lists of nodes.
use mathlib.Core.Path.{subst, fun_ext}
use hylafaxplus.Prelude.{
  ℕ, zero, suc, ◌≤◌, ◌<◌, Bool, some, List, [], ◌∷◌, ◌++◌, count, length, erase, insert_after, ◌==◌,
  ◌≡◌, ◌≢◌, refl, sym, ap, ◌∙◌, arith, Bool-cases, inl, inr,
}
use hylafaxplus.Faxq.Ring.{
  QLink, link_before, insert_link, unlink, remove_link, JobIter, start_iter, advance, walk,
  insert_at, insert_sorted,
}
use hylafaxplus.Faxq.Ring.Segments.{
  start-first, last-in, next-first, Segment, first, join, alone, count-append, join-Segment,
  alone-Segment, insert-Segment, bypass-Segment,
}

-- The ring of the head h holds the nodes xs, each once.
pub record IsRing (r : QLink) (h : ℕ) (xs : List ℕ) : Type 0 where
  pub linked : Segment r h xs h
  pub once : (i : ℕ) → count i (h ∷ xs) ≤ 1

module _ (n : ℕ) where
  -- The first node that fails the test, behind those that pass it.
  walk-stops :
      (r : QLink) (h : ℕ) (skip : ℕ → Bool) (fuel a : ℕ) (it : JobIter) (xs : List ℕ)
      → Segment r a xs h
      → count h xs ≡ 0
      → it.ql ≡ first xs h
      → it.after ≡ r.next it.ql
      → length xs < fuel
      → (it' : JobIter) × (front back : List ℕ) × (walk fuel h r skip it ≡ some it')
        × (xs ≡ front ++ back)
        × (it'.ql ≡ first back h)
        × (insert_after skip n xs ≡ front ++ n ∷ back)
  unfolding walk advance insert_after
  walk-stops r h skip zero a it xs s away at next enough = absurd (omega arith)
  walk-stops r h skip (suc fuel) a it [] s away at next enough =
      (it, [], [], ground arith, refl, at, refl)
  walk-stops r h skip (suc fuel) a it (x ∷ xs) s away at next enough = elim (Bool-cases (skip x)) [
    | inl on ↦
        let (it', front, back, e, f, g, k) =
          walk-stops r h skip fuel x (advance r it) xs s.2 (ground arith)
            (next ∙ ap r.next at ∙ start-first r x xs h s.2) refl (omega arith) in
        (it', x ∷ front, back, ground arith, cc, g, rw (on, k) refl)
    | inr here ↦ (it, [], x ∷ xs, ground arith, refl, at, rw here refl)
  ]

same-QLink :
    (q r : QLink) → ((i : ℕ) → q.next i ≡ r.next i) → ((i : ℕ) → q.prev i ≡ r.prev i) → q ≡ r
same-QLink q r h k = cc (fun_ext h, fun_ext k)

-- The four assignments of QLink::insert, as two joins.
link_before-join :
    (n c : ℕ) (r : QLink) → n ≢ r.prev c → link_before n c r ≡ join n c (join (r.prev c) n r)
unfolding link_before join
link_before-join n c r h = same-QLink _ _ (λ i. ground arith) (λ i. ground arith)

-- The three of QLink::remove.
unlink-join : (n : ℕ) (r : QLink) → unlink n r ≡ alone n (join (r.prev n) (r.next n) r)
unfolding unlink join alone
unlink-join n r = same-QLink _ _ (λ i. ground arith) (λ i. ground arith)

-- Insertion between front and back.
link_before-IsRing :
    (h n c : ℕ) (front back : List ℕ) (r : QLink)
    → IsRing r h (front ++ back)
    → count n (h ∷ front ++ back) ≡ 0
    → c ≡ first back h
    → IsRing (link_before n c r) h (front ++ n ∷ back)
link_before-IsRing h n c front back r ring new at =
    let last = last-in r h front back h ring.linked in
    let nh : n ≢ h = ground arith in
    let outside : n ≢ r.prev c = ground (arith, last, count-append n front back, at) in
    let away : count h (front ++ back) ≡ 0 = ground (arith, ring.once h) in
    record {
      linked =
          subst (λ q. Segment q h (front ++ n ∷ back) h) (sym (link_before-join n c r outside))
            (insert-Segment n c r h front back h ring.once away new nh at ring.linked);
      once = λ i. ground (
        arith,
        ring.once i,
        ring.once n,
        count-append i front back,
        count-append i front (n ∷ back),
      );
    }

-- Removal from between front and back.
unlink-IsRing :
    (h n : ℕ) (front back : List ℕ) (r : QLink)
    → IsRing r h (front ++ n ∷ back)
    → IsRing (unlink n r) h (front ++ back)
unlink-IsRing h n front back r ring =
    let away : count h (front ++ n ∷ back) ≡ 0 = ground (arith, ring.once h) in
    let gone : count n (h ∷ front ++ back) ≡ 0 =
      ground (arith, ring.once n, count-append n front back, count-append n front (n ∷ back)) in
    record {
      linked =
          subst (λ q. Segment q h (front ++ back) h) (sym (unlink-join n r))
            (alone-Segment n _ h (front ++ back) h gone
              (bypass-Segment n r h front back h ring.once away ring.linked));
      once = λ i.
          ground (arith, ring.once i, count-append i front back, count-append i front (n ∷ back));
    }

-- Where a node stands in a list.
split-at :
    (n : ℕ) (xs : List ℕ)
    → 1 ≤ count n xs
    → (front back : List ℕ) × (xs ≡ front ++ n ∷ back) × (erase n xs ≡ front ++ back)
unfolding erase
split-at n [] h = absurd (omega arith)
split-at n (x ∷ xs) h = elim (Bool-cases (n == x)) [
  | inl here ↦ ([], xs, ground (arith, here), rw here refl)
  | inr on ↦
      let (front, back, e, f) = split-at n xs (ground (arith, h, on)) in
      (x ∷ front, back, cc, rw (on, f) refl)
]

insert_link-free :
    (n c : ℕ) (r : QLink) → r.next n ≡ n → insert_link n c r ≡ some (link_before n c r)
unfolding insert_link
insert_link-free n c r h = ground (arith, h)

-- For a ring that holds the nodes xs, a node that is on no ring and fuel beyond the number of nodes:
-- the walk of ctrlJobDone, setSleep or DestInfo::block ends, the insertion passes its assertion, and
-- the ring then holds the list in which the node stands in front of the first that fails the test.
pub insert_sorted-IsRing :
    (fuel h n : ℕ) (skip : ℕ → Bool) (r : QLink) (xs : List ℕ)
    → IsRing r h xs
    → r.next n ≡ n
    → count n (h ∷ xs) ≡ 0
    → length xs < fuel
    → (r' : QLink) × (insert_sorted fuel h skip n r ≡ some r')
      × IsRing r' h (insert_after skip n xs)
unfolding insert_sorted insert_at
insert_sorted-IsRing fuel h n skip r xs ring free new enough =
    let away : count h xs ≡ 0 = ground (arith, ring.once h) in
    let (it, front, back, walked, split, at, placed) =
      walk-stops n r h skip fuel h (start_iter h r) xs ring.linked away
        (unfold start_iter in start-first r h xs h ring.linked) (unfold start_iter in refl)
        enough in
    (
      link_before n it.ql r,
      ap (λ o. insert_at n o r) walked ∙ insert_link-free n it.ql r free,
      subst (IsRing (link_before n it.ql r) h) (sym placed) (
          link_before-IsRing h n it.ql front back r (subst (IsRing r h) split ring)
            (subst (λ ys. count n (h ∷ ys) ≡ 0) split new) at),
    )

-- For a ring that holds the nodes xs, and one of them: QLink::remove passes its assertion, the ring
-- then holds the others in their order, and the node is on no ring.
pub remove_link-IsRing :
    (h n : ℕ) (r : QLink) (xs : List ℕ)
    → IsRing r h xs
    → 1 ≤ count n xs
    → (r' : QLink) × (remove_link n r ≡ some r') × IsRing r' h (erase n xs) × (r'.next n ≡ n)
unfolding remove_link
remove_link-IsRing h n r xs ring inside =
    let (front, back, e, f) = split-at n xs inside in
    let ring' = subst (IsRing r h) e ring in
    let next = next-first r h n front back h ring'.linked in
    let moves : r.next n ≢ n = later h n front back r ring' next in
    (
      unlink n r,
      ground (arith, moves),
      subst (IsRing (unlink n r) h) (sym f) (unlink-IsRing h n front back r ring'),
      unfold unlink in ground arith,
    )
  where
    later :
        (h n : ℕ) (front back : List ℕ) (r : QLink)
        → IsRing r h (front ++ n ∷ back)
        → r.next n ≡ first back h
        → r.next n ≢ n
    later h n front [] r ring e = ground (arith, ring.once h, e, count-append h front (n ∷ []))
    later h n front (y ∷ ys) r ring e =
        ground (arith, ring.once n, e, count-append n front (n ∷ y ∷ ys))

-- A ring that has none of the nodes of another is not changed by an insertion into the other or a
-- removal from it.
pub other-IsRing :
    (g : ℕ) (zs : List ℕ) (n c : ℕ) (r : QLink)
    → IsRing r g zs
    → count n (g ∷ zs) ≡ 0
    → count c (g ∷ zs) ≡ 0
    → count (r.prev c) (g ∷ zs) ≡ 0
    → count (r.prev n) (g ∷ zs) ≡ 0
    → count (r.next n) (g ∷ zs) ≡ 0
    → n ≢ r.prev c
    → IsRing (link_before n c r) g zs × IsRing (unlink n r) g zs
other-IsRing g zs n c r ring hn hc hpc hpn hnn out =
    let joined : Segment (join n c (join (r.prev c) n r)) g zs g =
      join-Segment n c _ g zs g hn (ground arith) (ground arith)
        (join-Segment (r.prev c) n r g zs g hpc (ground arith) (ground arith) ring.linked) in
    let passed : Segment (alone n (join (r.prev n) (r.next n) r)) g zs g =
      alone-Segment n _ g zs g hn (
        join-Segment (r.prev n) (r.next n) r g zs g hpn (ground arith) (ground arith)
          ring.linked) in
    (
      record {
        linked = subst (λ q. Segment q g zs g) (sym (link_before-join n c r out)) joined;
        once = ring.once;
      },
      record {
        linked = subst (λ q. Segment q g zs g) (sym (unlink-join n r)) passed;
        once = ring.once;
      },
    )
