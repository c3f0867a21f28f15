-- ===== src/Faxq/Ring/Segments.antt =====
-- Stretches of a ring (faxd/QLink.c++): which changes of pointers leave them alone.
use hylafaxplus.Prelude.{ℕ, ◌+◌, ◌≤◌, List, [], ◌∷◌, ◌++◌, count, ◌≡◌, ◌≢◌, arith}
use hylafaxplus.Faxq.State.{put}
use hylafaxplus.Faxq.Ring.{QLink}

pub count-append : (j : ℕ) (xs ys : List ℕ) → count j (xs ++ ys) ≡ count j xs + count j ys
count-append j [] ys = omega arith
count-append j (x ∷ xs) ys = ground (arith, count-append j xs ys)

-- The first of the nodes, or the end.
abbrev pub first : List ℕ → ℕ → ℕ
first [] b = b
first (y ∷ ys) b = y

-- From node a the nodes xs follow, and then b; the pointers back agree.
abbrev pub Segment : QLink → ℕ → List ℕ → ℕ → Type 0
Segment r a [] b = (r.next a ≡ b) × (r.prev b ≡ a)
Segment r a (x ∷ xs) b = (r.next a ≡ x) × (r.prev x ≡ a) × Segment r x xs b

-- p and c become neighbours.
unfoldable pub join : ℕ → ℕ → QLink → QLink
join p c r = record { next = put r.next p c; prev = put r.prev c p }

-- A join elsewhere.
pub join-Segment :
    (p c : ℕ) (r : QLink) (a : ℕ) (xs : List ℕ) (b : ℕ)
    → count p (a ∷ xs) ≡ 0
    → count c xs ≡ 0
    → c ≢ b
    → Segment r a xs b
    → Segment (join p c r) a xs b
unfolding join
join-Segment p c r a [] b hp hc cb s = (ground (arith, s.0), ground (arith, s.1))
join-Segment p c r a (x ∷ xs) b hp hc cb s = (
  ground (arith, s.0),
  ground (arith, s.1),
  join-Segment p c r x xs b (ground arith) (ground arith) cb s.2,
)

-- The node behind which xs end is one of them, or the node they start from.
pub last-in :
    (r : QLink) (a : ℕ) (xs ys : List ℕ) (b : ℕ)
    → Segment r a (xs ++ ys) b
    → 1 ≤ count (r.prev (first ys b)) (a ∷ xs)
last-in r a [] [] b s = ground (arith, s.1)
last-in r a [] (y ∷ ys) b s = ground (arith, s.1)
last-in r a (x ∷ xs) ys b s = ground (arith, last-in r x xs ys b s.2)

first-away :
    (a : ℕ) (xs ys : List ℕ) (b : ℕ)
    → ((i : ℕ) → count i (a ∷ xs ++ ys) ≤ 1)
    → count b (xs ++ ys) ≡ 0
    → count (first ys b) xs ≡ 0
first-away a xs [] b once away = ground (arith, count-append b xs [])
first-away a xs (y ∷ ys) b once away = ground (arith, once y, count-append y xs (y ∷ ys))

module _ (n c : ℕ) (r : QLink) where
  -- The ring behind QLink::insert.
  abbrev behind_insert : QLink
  behind_insert = join n c (join (r.prev c) n r)

  rest-Segment :
      (y : ℕ) (ys : List ℕ) (b : ℕ)
      → count n (y ∷ ys) ≡ 0
      → count (r.prev y) (y ∷ ys) ≡ 0
      → count y ys ≡ 0
      → y ≢ b
      → n ≢ b
      → y ≡ c
      → Segment r y ys b
      → Segment behind_insert y ys b
  rest-Segment y ys b hn hp hy yb nb e s =
      join-Segment n c _ y ys b hn (ground arith) (ground arith)
        (join-Segment (r.prev c) n r y ys b (ground arith) (ground arith) nb s)

  -- Between xs and ys, in front of the node c that comes first of ys and b.
  pub insert-Segment :
      (a : ℕ) (xs ys : List ℕ) (b : ℕ)
      → ((i : ℕ) → count i (a ∷ xs ++ ys) ≤ 1)
      → count b (xs ++ ys) ≡ 0
      → count n (a ∷ xs ++ ys) ≡ 0
      → n ≢ b
      → c ≡ first ys b
      → Segment r a (xs ++ ys) b
      → Segment behind_insert a (xs ++ n ∷ ys) b
  unfolding join
  insert-Segment a [] [] b once away new nb e s = (
    ground (arith, s.0, s.1),
    ground (arith, s.0, s.1),
    (ground (arith, s.0, s.1), ground (arith, s.0, s.1)),
  )
  insert-Segment a [] (y ∷ ys) b once away new nb e s = (
    ground (arith, s.0, s.1),
    ground (arith, s.0, s.1),
    (
      ground (arith, s.0, s.1),
      ground (arith, s.0, s.1),
      rest-Segment y ys b (ground arith) (ground (arith, once a, s.1)) (ground (arith, once y))
          (ground arith) nb (ground arith) s.2,
    ),
  )
  insert-Segment a (x ∷ xs) ys b once away new nb e s =
      let last = last-in r x xs ys b s.2 in
      (
        ground (arith, s.0, last, once a, count-append a xs ys, count-append (r.prev c) xs ys),
        ground (arith, s.1, first-away a (x ∷ xs) ys b once away),
        insert-Segment x xs ys b (λ i. ground (arith, once i)) (ground arith) (ground arith) nb e
            s.2,
      )

pub start-first :
    (r : QLink) (a : ℕ) (xs : List ℕ) (b : ℕ) → Segment r a xs b → r.next a ≡ first xs b
start-first r a [] b s = s.0
start-first r a (x ∷ xs) b s = s.0

pub next-first :
    (r : QLink) (a n : ℕ) (xs ys : List ℕ) (b : ℕ)
    → Segment r a (xs ++ n ∷ ys) b
    → r.next n ≡ first ys b
next-first r a n [] [] b s = s.2.0
next-first r a n [] (y ∷ ys) b s = s.2.0
next-first r a n (x ∷ xs) ys b s = next-first r x n xs ys b s.2

-- Past the node n, which stands between xs and ys.
pub bypass-Segment :
    (n : ℕ) (r : QLink) (a : ℕ) (xs ys : List ℕ) (b : ℕ)
    → ((i : ℕ) → count i (a ∷ xs ++ n ∷ ys) ≤ 1)
    → count b (xs ++ n ∷ ys) ≡ 0
    → Segment r a (xs ++ n ∷ ys) b
    → Segment (join (r.prev n) (r.next n) r) a (xs ++ ys) b
unfolding join
bypass-Segment n r a [] [] b once away s =
    (ground (arith, s.0, s.1, s.2.0, s.2.1), ground (arith, s.0, s.1, s.2.0, s.2.1))
bypass-Segment n r a [] (y ∷ ys) b once away s = (
  ground (arith, s.0, s.1, s.2.0),
  ground (arith, s.0, s.1, s.2.0),
  join-Segment (r.prev n) (r.next n) r y ys b (ground (arith, once a, s.1))
      (ground (arith, once y, s.2.0)) (ground (arith, s.2.0)) s.2.2,
)
bypass-Segment n r a (x ∷ xs) ys b once away s =
    let last = last-in r x xs (n ∷ ys) b s.2 in
    let next = next-first r x n xs ys b s.2 in
    (
      ground (
        arith,
        s.0,
        last,
        once a,
        count-append a xs (n ∷ ys),
        count-append (r.prev n) xs (n ∷ ys),
      ),
      ground (arith, s.1, next, behind-away a (x ∷ xs) n ys b once away),
      bypass-Segment n r x xs ys b (λ i. ground (arith, once i)) (ground arith) s.2,
    )
  where
    behind-away :
        (a : ℕ) (xs : List ℕ) (n : ℕ) (ys : List ℕ) (b : ℕ)
        → ((i : ℕ) → count i (a ∷ xs ++ n ∷ ys) ≤ 1)
        → count b (xs ++ n ∷ ys) ≡ 0
        → count (first ys b) xs ≡ 0
    behind-away a xs n [] b once away = ground (arith, count-append b xs (n ∷ []))
    behind-away a xs n (y ∷ ys) b once away = ground (arith, once y, count-append y xs (n ∷ y ∷ ys))

-- A node elsewhere is linked to itself.
unfoldable pub alone : ℕ → QLink → QLink
alone n r = record r { next = put r.next n n }

pub alone-Segment :
    (n : ℕ) (r : QLink) (a : ℕ) (xs : List ℕ) (b : ℕ)
    → count n (a ∷ xs) ≡ 0
    → Segment r a xs b
    → Segment (alone n r) a xs b
unfolding alone
alone-Segment n r a [] b h s = (ground (arith, s.0), s.1)
alone-Segment n r a (x ∷ xs) b h s =
    (ground (arith, s.0), s.1, alone-Segment n r x xs b (ground arith) s.2)
