-- ===== src/Fs/Inode/Table.antt =====
-- iget on the table of the inodes in use.
use mc.Prelude.{
  ℕ, zero, suc, ◌+◌, ◌^◌, ◌<◌, ◌≡◌, ◌≢◌, refl, sym, ap, ◌∙◌, ◌⊎◌, inl, inr, List, [], ◌∷◌, Bool,
  true, false, ◌==◌, ==_iff, none, some, Bool-cases, arith, ltb, subst, get_elem?, some_inj,
}
use mathlib.Core.Bool.{false≢true}
use mc.Fs.Inode.{
  Inode, Found, here, empty_at, full, is_inode, find_inode, at_index, counted, recycled_for,
  iget_end, iget,
}

-- No two entries in use are of the same inode.
abbrev pub IsUnique : List Inode → Type 0
IsUnique ips =
    (i j : ℕ) (a b : Inode)
    → get_elem? ips i ≡ some a
    → get_elem? ips j ≡ some b
    → is_inode b.dev b.inum a ≡ true
    → ltb 0 b.ref ≡ true
    → i ≡ j

get_elem?-at_index_self :
    (i : ℕ) (f : Inode → Inode) (ips : List Inode) (a : Inode)
    → get_elem? ips i ≡ some a
    → get_elem? (at_index i f ips) i ≡ some (f a)
get_elem?-at_index_self i f [] a h = absurd (cc)
get_elem?-at_index_self zero f (ip ∷ ips) a h = ap (λ x. some (f x)) (some_inj ip a h)
get_elem?-at_index_self (suc i) f (ip ∷ ips) a h = get_elem?-at_index_self i f ips a h

get_elem?-at_index_other :
    (i j : ℕ) (f : Inode → Inode) (ips : List Inode)
    → j ≢ i
    → get_elem? (at_index i f ips) j ≡ get_elem? ips j
get_elem?-at_index_other i j f [] n = refl
get_elem?-at_index_other zero zero f (ip ∷ ips) n = absurd (n refl)
get_elem?-at_index_other zero (suc j) f (ip ∷ ips) n = refl
get_elem?-at_index_other (suc i) zero f (ip ∷ ips) n = refl
get_elem?-at_index_other (suc i) (suc j) f (ip ∷ ips) n =
    get_elem?-at_index_other i j f ips (λ e. n (ap suc e))

-- An entry of a list at a place counted from `i`.
At : (i k : ℕ) → List Inode → (Inode → Bool) → Type 0
At i k ips test = (j : ℕ) × (a : Inode) × (k ≡ i + j) × (get_elem? ips j ≡ some a) × (test a ≡ true)

abbrev pub NoMatch : (dev inum : ℕ) → List Inode → Type 0
NoMatch dev inum ips = (j : ℕ) (a : Inode) → get_elem? ips j ≡ some a → is_inode dev inum a ≡ false

abbrev pub AllUsed : List Inode → Type 0
AllUsed ips = (j : ℕ) (a : Inode) → get_elem? ips j ≡ some a → (a.ref == 0) ≡ false

-- What the loop of iget finds.
abbrev Finds : (dev inum i : ℕ) → (empty : Found) → List Inode → Found → Type 0
Finds dev inum i e ips (here k) = (e ≡ here k) ⊎ At i k ips (is_inode dev inum)
Finds dev inum i e ips (empty_at k) =
    NoMatch dev inum ips × ((e ≡ empty_at k) ⊎ At i k ips (λ a. a.ref == 0))
Finds dev inum i e ips full = NoMatch dev inum ips × (e ≡ full) × AllUsed ips

next-At :
    (i k : ℕ) (ip : Inode) (ips : List Inode) (test : Inode → Bool)
    → At (i + 1) k ips test
    → At i k (ip ∷ ips) test
unfolding At
next-At i k ip ips test (j, a, e, g, t) = (suc j, a, omega arith, g, t)

here-At :
    (i : ℕ) (ip : Inode) (ips : List Inode) (test : Inode → Bool)
    → test ip ≡ true
    → At i i (ip ∷ ips) test
unfolding At
here-At i ip ips test t = (0, ip, omega arith, refl, t)

next-NoMatch :
    (dev inum : ℕ) (ip : Inode) (ips : List Inode)
    → is_inode dev inum ip ≡ false
    → NoMatch dev inum ips
    → NoMatch dev inum (ip ∷ ips)
next-NoMatch dev inum ip ips n h zero a g =
    subst (λ x. is_inode dev inum x ≡ false) (some_inj ip a g) n
next-NoMatch dev inum ip ips n h (suc j) a g = h j a g

-- a turn that keeps what is noted, and one that notes the entry
next-AllUsed :
    (ip : Inode) (ips : List Inode) → (ip.ref == 0) ≡ false → AllUsed ips → AllUsed (ip ∷ ips)
next-AllUsed ip ips n h zero a g = subst (λ x. (x.ref == 0) ≡ false) (some_inj ip a g) n
next-AllUsed ip ips n h (suc j) a g = h j a g

keep-Finds :
    (dev inum i : ℕ) (e : Found) (ip : Inode) (ips : List Inode) (r : Found)
    → is_inode dev inum ip ≡ false
    → (e ≡ full → (ip.ref == 0) ≡ false)
    → Finds dev inum (i + 1) e ips r
    → Finds dev inum i e (ip ∷ ips) r
keep-Finds dev inum i e ip ips (here k) n x (inl h) = inl h
keep-Finds dev inum i e ip ips (here k) n x (inr h) = inr (next-At i k ip ips (is_inode dev inum) h)
keep-Finds dev inum i e ip ips (empty_at k) n x (m, inl h) =
    (next-NoMatch dev inum ip ips n m, inl h)
keep-Finds dev inum i e ip ips (empty_at k) n x (m, inr h) =
    (next-NoMatch dev inum ip ips n m, inr (next-At i k ip ips (λ a. a.ref == 0) h))
keep-Finds dev inum i e ip ips full n x (m, h, u) =
    (next-NoMatch dev inum ip ips n m, h, next-AllUsed ip ips (x h) u)

empty_inj : (i k : ℕ) → empty_at i ≡ empty_at k → i ≡ k
empty_inj i k h = cc

note-Finds :
    (dev inum i : ℕ) (ip : Inode) (ips : List Inode) (r : Found)
    → is_inode dev inum ip ≡ false
    → (ip.ref == 0) ≡ true
    → Finds dev inum (i + 1) (empty_at i) ips r
    → Finds dev inum i full (ip ∷ ips) r
note-Finds dev inum i ip ips (here k) n z (inl h) = absurd (cc)
note-Finds dev inum i ip ips (here k) n z (inr h) = inr (next-At i k ip ips (is_inode dev inum) h)
note-Finds dev inum i ip ips (empty_at k) n z (m, inl h) = (
  next-NoMatch dev inum ip ips n m,
  inr (
      subst (λ k. At i k (ip ∷ ips) (λ a. a.ref == 0)) (empty_inj i k h)
        (here-At i ip ips (λ a. a.ref == 0) z)),
)
note-Finds dev inum i ip ips (empty_at k) n z (m, inr h) =
    (next-NoMatch dev inum ip ips n m, inr (next-At i k ip ips (λ a. a.ref == 0) h))
note-Finds dev inum i ip ips full n z (m, h, u) = absurd (cc)

turn-Finds :
    (dev inum i : ℕ) (e : Found) (ip : Inode) (ips : List Inode)
    → is_inode dev inum ip ≡ false
    → Finds dev inum (i + 1) e ips (find_inode dev inum (i + 1) e ips)
    → Finds dev inum (i + 1) (empty_at i) ips (find_inode dev inum (i + 1) (empty_at i) ips)
    → Finds dev inum i e (ip ∷ ips) (find_inode dev inum i e (ip ∷ ips))
unfolding find_inode
turn-Finds dev inum i (here k) ip ips n h g =
    rw (find_inode, n)
      (keep-Finds dev inum i (here k) ip ips (find_inode dev inum (i + 1) (here k) ips) n
        (λ q. absurd (cc)) h)
turn-Finds dev inum i (empty_at k) ip ips n h g =
    rw (find_inode, n)
      (keep-Finds dev inum i (empty_at k) ip ips (find_inode dev inum (i + 1) (empty_at k) ips) n
        (λ q. absurd (cc)) h)
turn-Finds dev inum i full ip ips n h g = elim (Bool-cases (ip.ref == 0)) [
  | inl y ↦
      rw (find_inode, n, y)
        (note-Finds dev inum i ip ips (find_inode dev inum (i + 1) (empty_at i) ips) n y g)
  | inr y ↦
      rw (find_inode, n, y)
        (keep-Finds dev inum i full ip ips (find_inode dev inum (i + 1) full ips) n (λ q. y) h)
]

find_inode-Finds :
    (dev inum i : ℕ) (e : Found) (ips : List Inode)
    → Finds dev inum i e ips (find_inode dev inum i e ips)
unfolding find_inode
find_inode-Finds dev inum i (here k) [] = inl refl
find_inode-Finds dev inum i (empty_at k) [] = (λ j a g. absurd (cc), inl refl)
find_inode-Finds dev inum i full [] = (λ j a g. absurd (cc), refl, λ j a g. absurd (cc))
find_inode-Finds dev inum i e (ip ∷ ips) = elim (Bool-cases (is_inode dev inum ip)) [
  | inl y ↦ rw (find_inode, y) (inr (here-At i ip ips (is_inode dev inum) y))
  | inr n ↦
      turn-Finds dev inum i e ip ips n (find_inode-Finds dev inum (i + 1) e ips)
        (find_inode-Finds dev inum (i + 1) (empty_at i) ips)
]

-- How iget changes an entry: it counts one more reference to the inode; or the entry has no reference and
-- the inode is not in the table, and the entry has one reference and is not valid, so that ilock reads the
-- inode from the disk.
pub data Change (dev inum : ℕ) (ips : List Inode) (old : Inode) : Inode → Type 0 where
  one_more :
      is_inode dev inum old ≡ true → Change dev inum ips old (record old { ref = old.ref + 1 })
  taken_over :
      (old.ref == 0) ≡ true
      → NoMatch dev inum ips
      → Change dev inum ips old (record old { dev = dev; inum = inum; ref = 1; valid = 0 })

-- What iget does with the table.
pub record IsGot (dev inum i : ℕ) (ips ips' : List Inode) : Type 0 where
  pub entry : Inode
  pub at : get_elem? ips' i ≡ some entry
  pub is_it : is_inode dev inum entry ≡ true
  pub old : Inode
  pub was : get_elem? ips i ≡ some old
  pub change : Change dev inum ips old entry
  pub others : (j : ℕ) → j ≢ i → get_elem? ips' j ≡ get_elem? ips j
  pub unique : IsUnique ips'

is_inode-parts :
    (dev inum : ℕ) (a : Inode)
    → is_inode dev inum a ≡ true
    → (ltb 0 a.ref ≡ true) × ((a.dev ≡ dev) × (a.inum ≡ inum))
is_inode-parts dev inum a h = ground (arith, h)

is_inode-of :
    (dev inum : ℕ) (a : Inode)
    → ltb 0 a.ref ≡ true
    → a.dev ≡ dev
    → a.inum ≡ inum
    → is_inode dev inum a ≡ true
is_inode-of dev inum a r d n = ground (arith, r, d, n)

-- An entry that takes the place of one, of an inode that no other entry is of.
at_index-IsUnique :
    (dev inum i : ℕ) (f : Inode → Inode) (ips : List Inode) (a : Inode)
    → IsUnique ips
    → get_elem? ips i ≡ some a
    → ((f a).dev ≡ dev) × ((f a).inum ≡ inum)
    → ((j : ℕ) (b : Inode) → get_elem? ips j ≡ some b → is_inode dev inum b ≡ true → j ≡ i)
    → IsUnique (at_index i f ips)
at_index-IsUnique dev inum i f ips a u g (d, n) only p q x y hp hq m r =
    elim (Bool-cases (p == i)) [
      | inl pi ↦ elim (Bool-cases (q == i)) [
        | inl qi ↦ (==_iff p i).0 pi ∙ sym ((==_iff q i).0 qi)
        | inr qn ↦
            let old : get_elem? ips q ≡ some y =
              sym (get_elem?-at_index_other i q f ips (apart q qn)) ∙ hq in
            let parts = is_inode-parts y.dev y.inum x m in
            let e : x ≡ f a = is_changed p x pi hp in
            absurd (
              apart q qn (
                only q y old (
                  is_inode-of dev inum y r (sym parts.1.0 ∙ ap (λ z. z.dev) e ∙ d)
                    (sym parts.1.1 ∙ ap (λ z. z.inum) e ∙ n))))
      ]
      | inr pn ↦
          let old : get_elem? ips p ≡ some x =
            sym (get_elem?-at_index_other i p f ips (apart p pn)) ∙ hp in
          elim (Bool-cases (q == i)) [
            | inl qi ↦
                let e : y ≡ f a = is_changed q y qi hq in
                let parts = is_inode-parts y.dev y.inum x m in
                absurd (
                  apart p pn (
                    only p x old (
                      is_inode-of dev inum x parts.0 (parts.1.0 ∙ ap (λ z. z.dev) e ∙ d)
                        (parts.1.1 ∙ ap (λ z. z.inum) e ∙ n))))
            | inr qn ↦
                u p q x y old (sym (get_elem?-at_index_other i q f ips (apart q qn)) ∙ hq) m r
          ]
    ]
  where
    apart : (k : ℕ) → (k == i) ≡ false → k ≢ i
    apart k h e = false≢true (sym h ∙ (==_iff k i).1 e)

    is_changed :
        (k : ℕ) (z : Inode) → (k == i) ≡ true → get_elem? (at_index i f ips) k ≡ some z → z ≡ f a
    is_changed k z h l = some_inj z (f a) (
        sym l
        ∙ ap (get_elem? (at_index i f ips)) ((==_iff k i).0 h)
        ∙ get_elem?-at_index_self i f ips a g)

module _ (dev inum : ℕ) (ips : List Inode) (u : IsUnique ips)
    (w : (j : ℕ) (a : Inode) → get_elem? ips j ≡ some a → a.ref + 1 < 2 ^ 32) where
  only_here :
      (i : ℕ) (a : Inode)
      → get_elem? ips i ≡ some a
      → is_inode dev inum a ≡ true
      → (j : ℕ) (b : Inode) → get_elem? ips j ≡ some b
      → is_inode dev inum b ≡ true
      → j ≡ i
  only_here i a g m j b h n =
      let p = is_inode-parts dev inum a m in
      let q = is_inode-parts dev inum b n in
      u j i b a h g (is_inode-of a.dev a.inum b q.0 (q.1.0 ∙ sym p.1.0) (q.1.1 ∙ sym p.1.1)) p.0

  counted-IsGot :
      (i : ℕ) (a : Inode)
      → get_elem? ips i ≡ some a
      → is_inode dev inum a ≡ true
      → IsGot dev inum i ips (at_index i counted ips)
  counted-IsGot i a g m =
      let p = is_inode-parts dev inum a m in
      let room : a.ref + 1 < 2 ^ 32 = w i a g in
      let r : ltb 0 (counted a).ref ≡ true = ground (arith, room) in
      record {
        entry = counted a;
        at = get_elem?-at_index_self i counted ips a g;
        is_it = is_inode-of dev inum (counted a) r p.1.0 p.1.1;
        old = a;
        was = g;
        change =
            subst (Change dev inum ips a) (ap (λ n. record a { ref = n }) (ground (arith, room)))
              (one_more m);
        others = λ j n. get_elem?-at_index_other i j counted ips n;
        unique = at_index-IsUnique dev inum i counted ips a u g p.1 (only_here i a g m);
      }

  recycled-IsGot :
      (i : ℕ) (a : Inode)
      → get_elem? ips i ≡ some a
      → NoMatch dev inum ips
      → (a.ref == 0) ≡ true
      → IsGot dev inum i ips (at_index i (recycled_for dev inum) ips)
  recycled-IsGot i a g n z = record {
    old = a;
    was = g;
    change = taken_over z n;
    entry = recycled_for dev inum a;
    at = get_elem?-at_index_self i (recycled_for dev inum) ips a g;
    is_it = is_inode-of dev inum (recycled_for dev inum a) refl refl refl;
    others = λ j m. get_elem?-at_index_other i j (recycled_for dev inum) ips m;
    unique =
        at_index-IsUnique dev inum i (recycled_for dev inum) ips a u g (refl, refl)
          (λ j b h m. absurd (false≢true (sym (n j b h) ∙ m)));
  }

  iget_end-IsGot :
      (r : Found)
      → Finds dev inum 0 full ips r
      → ((iget_end dev inum ips r ≡ none) × NoMatch dev inum ips × AllUsed ips)
        ⊎ ((i : ℕ) × (ips' : List Inode) × (iget_end dev inum ips r ≡ some (i, ips'))
            × IsGot dev inum i ips ips')
  unfolding At
  iget_end-IsGot (here k) (inl h) = absurd (cc)
  iget_end-IsGot (here k) (inr (j, a, e, g, t)) =
      inr (
        k,
        at_index k counted ips,
        refl,
        counted-IsGot k a (ap (get_elem? ips) (omega arith) ∙ g) t,
      )
  iget_end-IsGot (empty_at k) (n, inl h) = absurd (cc)
  iget_end-IsGot (empty_at k) (n, inr (j, a, e, g, t)) = inr (
    k,
    at_index k (recycled_for dev inum) ips,
    refl,
    recycled-IsGot k a (ap (get_elem? ips) (omega arith) ∙ g) n t,
  )
  iget_end-IsGot full (n, h, u') = inl (refl, n, u')

-- iget of an inode in a table with no inode twice, whose counts do not wrap, finds the entry of the inode
-- and counts one more reference, or, if the inode is not in the table, takes an entry without references
-- for it, with one reference and not valid. No other entry changes, and no inode is in the table twice
-- then. It panics only where the inode is not in the table and every entry has references.
pub iget_lem :
    (dev inum : ℕ) (ips : List Inode)
    → IsUnique ips
    → ((j : ℕ) (a : Inode) → get_elem? ips j ≡ some a → a.ref + 1 < 2 ^ 32)
    → ((iget dev inum ips ≡ none) × NoMatch dev inum ips × AllUsed ips)
      ⊎ ((i : ℕ) × (ips' : List Inode) × (iget dev inum ips ≡ some (i, ips'))
          × IsGot dev inum i ips ips')
unfolding iget
iget_lem dev inum ips u w =
    iget_end-IsGot dev inum ips u w (find_inode dev inum 0 full ips)
      (find_inode-Finds dev inum 0 full ips)
