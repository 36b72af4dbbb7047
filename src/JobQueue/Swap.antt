-- ===== src/JobQueue/Swap.antt =====
-- What a series of swaps below an index keeps, and what Push and Pop do to the index fields.
use tasch.Base.{
  ℕ, ◌+◌, ◌-◌, ◌≤◌, ◌<◌, ◌≡◌, refl, ◌∙◌, [], ◌∷◌, pos, negsuc, arith, ◌≢◌, ◌==◌, if◌then◌else◌, get,
  set, count, length-set, get-set, count-set, get-append, get-append_end, count-append_end,
  length-append, length-take, get-take, count-take, count-get, count-le_one,
}
use tasch.JobQueue.{JobQueue, len, swap, push, pop}

-- The `index` field of each job in the queue says where it stands.
abbrev pub IsIndexed : JobQueue → Type 0
IsIndexed q = (i : ℕ) → i < len q → q.index (get q.items i) ≡ pos i

module _ (q : JobQueue) (i j : ℕ) (hi : i < len q) (hj : j < len q) where
  pub get-swap :
      (c : ℕ)
      → get (swap q i j).items c
        ≡ (if j == c then get q.items i else if i == c then get q.items j else get q.items c)
  unfolding swap
  get-swap c = ground (
    arith,
    get-set (set q.items i (get q.items j)) j c (get q.items i),
    get-set q.items i c (get q.items j),
    length-set q.items i (get q.items j),
  )

  pub length-swap : len (swap q i j) ≡ len q
  unfolding swap
  length-swap =
      length-set (set q.items i (get q.items j)) j (get q.items i)
      ∙ length-set q.items i (get q.items j)

  pub count-swap : (p : ℕ) → count p (swap q i j).items ≡ count p q.items
  unfolding swap
  count-swap p = ground (
    arith,
    count-set p (set q.items i (get q.items j)) j (get q.items i),
    count-set p q.items i (get q.items j),
    get-set q.items i j (get q.items j),
    length-set q.items i (get q.items j),
  )

  index-swap :
      (p : ℕ)
      → (swap q i j).index p
        ≡ (if get q.items i == p then pos j else if get q.items j == p then pos i else q.index p)
  unfolding swap
  index-swap p = refl

  swap-IsIndexed : IsIndexed q → IsIndexed (swap q i j)
  swap-IsIndexed ix c h =
      ground
        (arith, length-swap, get-swap c, index-swap (get (swap q i j).items c), ix i, ix j, ix c)

-- `r` holds the jobs of `q`, moved about below `n` alone, with their index fields kept up.
pub record Moved (n : ℕ) (q r : JobQueue) : Type 0 where
  pub size : len r ≡ len q
  pub same : (p : ℕ) → count p r.items ≡ count p q.items
  pub above : (k : ℕ) → n ≤ k → get r.items k ≡ get q.items k
  pub indexed : IsIndexed q → IsIndexed r
  pub others : (p : ℕ) → count p q.items ≡ 0 → r.index p ≡ q.index p

pub Moved-refl : (n : ℕ) (q : JobQueue) → Moved n q q
Moved-refl n q = record {
  size = refl;
  same = λ p. refl;
  above = λ k h. refl;
  indexed = λ ix. ix;
  others = λ p h. refl;
}

pub Moved-trans : {n : ℕ} {q r s : JobQueue} → Moved n q r → Moved n r s → Moved n q s
Moved-trans v w = record {
  size = w.size ∙ v.size;
  same = λ p. w.same p ∙ v.same p;
  above = λ k h. w.above k h ∙ v.above k h;
  indexed = λ ix. w.indexed (v.indexed ix);
  others = λ p h. w.others p (v.same p ∙ h) ∙ v.others p h;
}

pub swap-Moved :
    (n : ℕ) (q : JobQueue) (i j : ℕ) → n ≤ len q → i < n → j < n → Moved n q (swap q i j)
swap-Moved n q i j hn hi hj = record {
  size = length-swap q i j (omega arith) (omega arith);
  same = count-swap q i j (omega arith) (omega arith);
  above = λ k h. ground (arith, get-swap q i j (omega arith) (omega arith) k);
  indexed = swap-IsIndexed q i j (omega arith) (omega arith);
  others = λ p h. ground (
    arith,
    index-swap q i j (omega arith) (omega arith) p,
    count-get q.items i (omega arith),
    count-get q.items j (omega arith),
  );
}

-- With every job indexed no job stands twice.
pub count-IsIndexed-le_one : (q : JobQueue) → IsIndexed q → (p : ℕ) → count p q.items ≤ 1
count-IsIndexed-le_one q ix p = count-le_one p q.items λ i j hi hj ei ej.
    let at_i : q.index p ≡ pos i = rw ei at (ix i hi) in
    let at_j : q.index p ≡ pos j = rw ej at (ix j hj) in ground arith

-- Push puts the new job at the end.
pub record Pushed (q : JobQueue) (p : ℕ) (r : JobQueue) : Type 0 where
  pub size : len r ≡ len q + 1
  pub last : get r.items (len q) ≡ p
  pub before : (i : ℕ) → i < len q → get r.items i ≡ get q.items i
  pub same : (s : ℕ) → count s r.items ≡ count s q.items + (if p == s then 1 else 0)
  pub indexed : IsIndexed q → count p q.items ≡ 0 → IsIndexed r
  pub others : (s : ℕ) → p ≢ s → r.index s ≡ q.index s

pub push-Pushed : (q : JobQueue) (p : ℕ) → Pushed q p (push q p)
unfolding push
push-Pushed q p = record {
  size = omega (arith, length-append q.items (p ∷ []));
  last = get-append_end q.items p;
  before = get-append q.items p;
  same = λ s. count-append_end s q.items p;
  indexed = λ ix fresh i h. ground (
    arith,
    ix i,
    length-append q.items (p ∷ []),
    get-append q.items p i,
    get-append_end q.items p,
    count-get q.items i,
  );
  others = λ s h. ground arith;
}

-- Pop takes the last job off, whose index field becomes -1.
pub record Popped (q : JobQueue) (p : ℕ) (r : JobQueue) : Type 0 where
  pub size : len r + 1 ≡ len q
  pub last : p ≡ get q.items (len q - 1)
  pub before : (i : ℕ) → i < len r → get r.items i ≡ get q.items i
  pub same : (s : ℕ) → count s r.items + (if p == s then 1 else 0) ≡ count s q.items
  pub indexed : IsIndexed q → IsIndexed r
  pub unset : r.index p ≡ negsuc 0
  pub others : (s : ℕ) → p ≢ s → r.index s ≡ q.index s

pub pop-Popped : (q : JobQueue) → 0 < len q → Popped q (pop q).0 (pop q).1
unfolding pop
pop-Popped q h = record {
  size = omega (arith, length-take (len q - 1) q.items (omega arith));
  last = refl;
  before = λ i hi.
      get-take (len q - 1) q.items i (omega (arith, length-take (len q - 1) q.items (omega arith)));
  same = λ s. omega (arith, count-take s (len q - 1) q.items (omega arith));
  indexed = λ ix i hi. ground (
    arith,
    length-take (len q - 1) q.items (omega arith),
    get-take (len q - 1) q.items i,
    ix i,
    ix (len q - 1),
  );
  unset = ground arith;
  others = λ s e. ground arith;
}
