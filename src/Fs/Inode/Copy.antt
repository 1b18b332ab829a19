-- ===== src/Fs/Inode/Copy.antt =====
-- The copies of inodes on the disk.
use mc.Prelude.{
  ℕ, zero, suc, ◌+◌, ◌*◌, ◌^◌, ◌≤◌, ◌<◌, ◌≡◌, ◌≢◌, refl, sym, ap, ◌∙◌, ◌⊎◌, inl, inr, true, ◌==◌,
  Bool-cases, arith, ==_iff, ltb,
}
use mc.Fs.{Superblock, Blocks, get_le, put_le}
use mc.Fs.Bytes.{put_le-other, get_le-same, get_le-put_le, get_le-put_le_other}
use mc.Fs.Inode.{Inode, ndirect, iblock, dinode_off, put_addrs, dinode, iupdate, read_inode}

put_addrs-other :
    (n i off : ℕ) (addrs f : ℕ → ℕ) (j : ℕ)
    → (j < off + 4 * i) ⊎ (off + 4 * (i + n) ≤ j)
    → put_addrs n i off addrs f j ≡ f j
unfolding put_addrs
put_addrs-other zero i off addrs f j h = refl
put_addrs-other (suc n) i off addrs f j h =
    put_addrs-other n (i + 1) off addrs (put_le 4 (off + 4 * i) (addrs i) f) j (ground (arith, h))
    ∙ put_le-other 4 (off + 4 * i) (addrs i) f j (ground (arith, h))

get_le-put_addrs :
    (n i off : ℕ) (addrs f : ℕ → ℕ) (k : ℕ)
    → i ≤ k
    → k < i + n
    → addrs k < 256 ^ 4
    → get_le 4 (off + 4 * k) (put_addrs n i off addrs f) ≡ addrs k
unfolding put_addrs
get_le-put_addrs zero i off addrs f k l u b = absurd (omega arith)
get_le-put_addrs (suc n) i off addrs f k l u b = elim (Bool-cases (i == k)) [
  | inl y ↦
      let e : i ≡ k = (==_iff i k).0 y in
      let keep =
        get_le-same 4 (off + 4 * k)
          (put_addrs n (i + 1) off addrs (put_le 4 (off + 4 * i) (addrs i) f))
          (put_le 4 (off + 4 * i) (addrs i) f)
          (λ j a c. put_addrs-other n (i + 1) off addrs _ j (inl (omega arith))) in
      keep
      ∙ ap (λ x. get_le 4 (off + 4 * k) (put_le 4 (off + 4 * x) (addrs x) f)) e
      ∙ get_le-put_le 4 (off + 4 * k) (addrs k) f b
  | inr n' ↦
      get_le-put_addrs n (i + 1) off addrs (put_le 4 (off + 4 * i) (addrs i) f) k
        (ground (arith, n', l)) (omega arith) b
]

-- The fields of an inode have the widths of the disk copy.
pub record IsFit (ip : Inode) : Type 0 where
  pub kind : ip.kind < 256 ^ 2
  pub major : ip.major < 256 ^ 2
  pub minor : ip.minor < 256 ^ 2
  pub nlink : ip.nlink < 256 ^ 2
  pub size : ip.size < 256 ^ 4
  pub addrs : (i : ℕ) → i < ndirect + 1 → ip.addrs i < 256 ^ 4

-- Two inodes with the same copied fields.
pub record IsSame (ip jp : Inode) : Type 0 where
  pub kind : ip.kind ≡ jp.kind
  pub major : ip.major ≡ jp.major
  pub minor : ip.minor ≡ jp.minor
  pub nlink : ip.nlink ≡ jp.nlink
  pub size : ip.size ≡ jp.size
  pub addrs : (i : ℕ) → i < ndirect + 1 → ip.addrs i ≡ jp.addrs i

module _ (ip : Inode) (f : ℕ → ℕ) where
  abbrev with_kind : ℕ → ℕ
  with_kind = put_le 2 (dinode_off ip.inum) ip.kind f

  abbrev with_major : ℕ → ℕ
  with_major = put_le 2 (dinode_off ip.inum + 2) ip.major with_kind

  abbrev with_minor : ℕ → ℕ
  with_minor = put_le 2 (dinode_off ip.inum + 4) ip.minor with_major

  abbrev with_nlink : ℕ → ℕ
  with_nlink = put_le 2 (dinode_off ip.inum + 6) ip.nlink with_minor

  abbrev with_size : ℕ → ℕ
  with_size = put_le 4 (dinode_off ip.inum + 8) ip.size with_nlink

  before_addrs :
      (w o : ℕ) → o + w ≤ dinode_off ip.inum + 12 → get_le w o (dinode ip f) ≡ get_le w o with_size
  unfolding dinode
  before_addrs w o l =
      get_le-same w o (put_addrs (ndirect + 1) 0 (dinode_off ip.inum + 12) ip.addrs with_size)
        with_size
        (λ j a b.
          put_addrs-other (ndirect + 1) 0 (dinode_off ip.inum + 12) ip.addrs with_size j
            (inl (omega arith)))

  before_size :
      (w o : ℕ) → o + w ≤ dinode_off ip.inum + 8 → get_le w o (dinode ip f) ≡ get_le w o with_nlink
  before_size w o l =
      before_addrs w o (omega arith)
      ∙ get_le-put_le_other w o 4 (dinode_off ip.inum + 8) ip.size with_nlink (inl l)

  before_nlink :
      (w o : ℕ) → o + w ≤ dinode_off ip.inum + 6 → get_le w o (dinode ip f) ≡ get_le w o with_minor
  before_nlink w o l =
      before_size w o (omega arith)
      ∙ get_le-put_le_other w o 2 (dinode_off ip.inum + 6) ip.nlink with_minor (inl l)

  before_minor :
      (w o : ℕ) → o + w ≤ dinode_off ip.inum + 4 → get_le w o (dinode ip f) ≡ get_le w o with_major
  before_minor w o l =
      before_nlink w o (omega arith)
      ∙ get_le-put_le_other w o 2 (dinode_off ip.inum + 4) ip.minor with_major (inl l)

  before_major :
      (w o : ℕ) → o + w ≤ dinode_off ip.inum + 2 → get_le w o (dinode ip f) ≡ get_le w o with_kind
  before_major w o l =
      before_minor w o (omega arith)
      ∙ get_le-put_le_other w o 2 (dinode_off ip.inum + 2) ip.major with_kind (inl l)

  get_le-addrs :
      (i : ℕ)
      → i < ndirect + 1
      → ip.addrs i < 256 ^ 4
      → get_le 4 (dinode_off ip.inum + 12 + 4 * i) (dinode ip f) ≡ ip.addrs i
  unfolding dinode
  get_le-addrs i l b =
      get_le-put_addrs (ndirect + 1) 0 (dinode_off ip.inum + 12) ip.addrs with_size i (omega arith)
        (omega arith) b

  dinode-other :
      (j : ℕ) → (j < dinode_off ip.inum) ⊎ (dinode_off ip.inum + 64 ≤ j) → dinode ip f j ≡ f j
  unfolding dinode
  dinode-other j h =
      put_addrs-other (ndirect + 1) 0 (dinode_off ip.inum + 12) ip.addrs with_size j
        (ground (arith, h))
      ∙ put_le-other 4 (dinode_off ip.inum + 8) ip.size with_nlink j (ground (arith, h))
      ∙ put_le-other 2 (dinode_off ip.inum + 6) ip.nlink with_minor j (ground (arith, h))
      ∙ put_le-other 2 (dinode_off ip.inum + 4) ip.minor with_major j (ground (arith, h))
      ∙ put_le-other 2 (dinode_off ip.inum + 2) ip.major with_kind j (ground (arith, h))
      ∙ put_le-other 2 (dinode_off ip.inum) ip.kind f j (ground (arith, h))

  dinode-IsSame :
      (jp : Inode) → jp.inum ≡ ip.inum → IsFit ip → IsSame (read_inode (dinode ip f) jp) ip
  unfolding read_inode
  dinode-IsSame jp e t = record {
    kind =
        ap (λ x. get_le 2 (dinode_off x) (dinode ip f)) e
        ∙ before_major 2 (dinode_off ip.inum) (omega arith)
        ∙ get_le-put_le 2 (dinode_off ip.inum) ip.kind f t.kind;
    major =
        ap (λ x. get_le 2 (dinode_off x + 2) (dinode ip f)) e
        ∙ before_minor 2 (dinode_off ip.inum + 2) (omega arith)
        ∙ get_le-put_le 2 (dinode_off ip.inum + 2) ip.major with_kind t.major;
    minor =
        ap (λ x. get_le 2 (dinode_off x + 4) (dinode ip f)) e
        ∙ before_nlink 2 (dinode_off ip.inum + 4) (omega arith)
        ∙ get_le-put_le 2 (dinode_off ip.inum + 4) ip.minor with_major t.minor;
    nlink =
        ap (λ x. get_le 2 (dinode_off x + 6) (dinode ip f)) e
        ∙ before_size 2 (dinode_off ip.inum + 6) (omega arith)
        ∙ get_le-put_le 2 (dinode_off ip.inum + 6) ip.nlink with_minor t.nlink;
    size =
        ap (λ x. get_le 4 (dinode_off x + 8) (dinode ip f)) e
        ∙ before_addrs 4 (dinode_off ip.inum + 8) (omega arith)
        ∙ get_le-put_le 4 (dinode_off ip.inum + 8) ip.size with_nlink t.size;
    addrs = λ i l.
        (let y : ltb i (ndirect + 1) ≡ true = ground (arith, l) in
          rw (y) (
            ap (λ x. get_le 4 (dinode_off x + 12 + 4 * i) (dinode ip f)) e
            ∙ get_le-addrs i l (t.addrs i l)));
  }

-- Inodes read from bytes that agree on the copy.
read_inode-IsSame :
    (f g : ℕ → ℕ) (jp : Inode)
    → ((j : ℕ) → dinode_off jp.inum ≤ j → j < dinode_off jp.inum + 64 → f j ≡ g j)
    → IsSame (read_inode f jp) (read_inode g jp)
unfolding read_inode
read_inode-IsSame f g jp h = record {
  kind = get_le-same 2 (dinode_off jp.inum) f g (λ j a b. h j (omega arith) (omega arith));
  major = get_le-same 2 (dinode_off jp.inum + 2) f g (λ j a b. h j (omega arith) (omega arith));
  minor = get_le-same 2 (dinode_off jp.inum + 4) f g (λ j a b. h j (omega arith) (omega arith));
  nlink = get_le-same 2 (dinode_off jp.inum + 6) f g (λ j a b. h j (omega arith) (omega arith));
  size = get_le-same 4 (dinode_off jp.inum + 8) f g (λ j a b. h j (omega arith) (omega arith));
  addrs = λ i l.
      (let y : ltb i (ndirect + 1) ≡ true = ground (arith, l) in
        rw (y) (
          get_le-same 4 (dinode_off jp.inum + 12 + 4 * i) f g
            (λ j a b. h j (omega arith) (omega arith))));
}

-- After iupdate of an inode whose fields have the widths of the disk copy, ilock reads its fields back
-- from the disk, and reads of any other inode what it read before.
pub iupdate_lem :
    (sb : Superblock) (ip jp : Inode) (d : Blocks)
    → IsFit ip
    → (jp.inum ≡ ip.inum → IsSame (read_inode (iupdate sb ip d (iblock sb jp.inum)) jp) ip)
      × (jp.inum ≢ ip.inum
          → IsSame
              (read_inode (iupdate sb ip d (iblock sb jp.inum)) jp)
              (read_inode (d (iblock sb jp.inum)) jp))
unfolding iupdate
iupdate_lem sb ip jp d t = (same, other)
  where
    same : jp.inum ≡ ip.inum → IsSame (read_inode (iupdate sb ip d (iblock sb jp.inum)) jp) ip
    same e =
        let b : (iblock sb ip.inum == iblock sb jp.inum) ≡ true =
          (==_iff (iblock sb ip.inum) (iblock sb jp.inum)).1 (ap (iblock sb) (sym e)) in
        rw (iupdate, b) (dinode-IsSame ip (d (iblock sb ip.inum)) jp e t)

    other :
        jp.inum ≢ ip.inum
        → IsSame
            (read_inode (iupdate sb ip d (iblock sb jp.inum)) jp)
            (read_inode (d (iblock sb jp.inum)) jp)
    other n = elim (Bool-cases (iblock sb ip.inum == iblock sb jp.inum)) [
      | inr y ↦
          rw (iupdate, y)
            (read_inode-IsSame (d (iblock sb jp.inum)) (d (iblock sb jp.inum)) jp (λ j a b. refl))
      | inl y ↦
          let e : iblock sb ip.inum ≡ iblock sb jp.inum =
            (==_iff (iblock sb ip.inum) (iblock sb jp.inum)).0 y in
          rw (iupdate, y)
            (read_inode-IsSame (dinode ip (d (iblock sb ip.inum))) (d (iblock sb jp.inum)) jp
              (λ j a b.
                dinode-other ip (d (iblock sb ip.inum)) j (apart n e j a b) ∙ ap (λ x. d x j) e))
    ]
      where
        apart :
            jp.inum ≢ ip.inum
            → iblock sb ip.inum ≡ iblock sb jp.inum
            → (j : ℕ) → dinode_off jp.inum ≤ j
            → j < dinode_off jp.inum + 64
            → (j < dinode_off ip.inum) ⊎ (dinode_off ip.inum + 64 ≤ j)
        apart n e j a b = ground (arith, n, e, a, b)
