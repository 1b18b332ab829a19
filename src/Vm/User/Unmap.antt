-- ===== src/Vm/User/Unmap.antt =====
-- The pages that uvmunmap of kernel/vm.c gives back.
use mc.Prelude.{
  ℕ, suc, ◌+◌, ◌*◌, ◌%◌, ◌<◌, ◌≡◌, refl, inl, inr, List, [], ◌∷◌, false, some, arith, ◌==◌, ==_self,
  Bool-cases, All, update,
}
use mc.Kalloc.{is_bad, junk_free}
use mc.Kalloc.Pages.{NotIn}
use mc.Vm.{Memory, maxva, pte2pa}
use mc.Vm.Roles.{Role, unused, other, table, IsValid, find}
use mc.Vm.Install.{differs}
use mc.Vm.Leaf.{find-same, entry-same}
use mc.Vm.Map.{translation, top}
use mc.Vm.User.{kfree, fill_page}

-- Giving a page back: tables and their entries stay.
pub record IsReleased (role role' : ℕ → Role) (pa : ℕ) (m m' : Memory) : Type 0 where
  pub valid : IsValid role' m'
  pub roles : (a : ℕ) → (pa == a) ≡ false → role' a ≡ role a
  pub tables : (a root l x : ℕ) → role a ≡ table root l x → role' a ≡ table root l x
  pub same : (a root l x i : ℕ) → role a ≡ table root l x → m'.pte a i ≡ m.pte a i
  pub bytes : (a i : ℕ) → (a == pa) ≡ false → m'.byte a i ≡ m.byte a i

-- kfree of a page of another use than tables, that is not free.
pub kfree_lem :
    (image_end : ℕ) (role : ℕ → Role) (pa : ℕ) (m : Memory)
    → IsValid role m
    → is_bad image_end pa ≡ false
    → role pa ≡ other
    → (m' : Memory) × (kfree image_end pa m ≡ some m')
      × (m'.free ≡ pa ∷ m.free)
      × IsReleased role (update role pa unused) pa m m'
unfolding kfree
kfree_lem image_end role pa m w g o = (
  m',
  rw g,
  refl,
  record {
    valid = valid;
    roles = λ a h. rw h;
    tables = tables;
    same = same;
    bytes = λ a i h. rw h;
  },
)
  where
    m' : Memory
    m' = record (fill_page pa junk_free 1 m) { free = pa ∷ m.free }

    tables : (a root l x : ℕ) → role a ≡ table root l x → update role pa unused a ≡ table root l x
    tables a root l x h = let e : (pa == a) ≡ false = differs role pa a (λ q. absurd (cc)) in rw e h

    same : (a root l x i : ℕ) → role a ≡ table root l x → m'.pte a i ≡ m.pte a i
    same a root l x i h = let e : (a == pa) ≡ false = differs role a pa (λ q. absurd (cc)) in rw e

    was_table :
        (a root l x : ℕ) → update role pa unused a ≡ table root l x → role a ≡ table root l x
    was_table a root l x h = elim (Bool-cases (pa == a)) [
      | inl e ↦ let z : unused ≡ table root l x = rw e at h in absurd (cc)
      | inr e ↦ rw e at h
    ]

    still :
        (xs : List ℕ)
        → All (λ q. (role q ≡ unused) × (q % 4096 ≡ 0)) xs
        → All (λ q. (update role pa unused q ≡ unused) × (q % 4096 ≡ 0)) xs × NotIn pa xs
    still [] a = (tt, tt)
    still (x ∷ xs) a =
        let e : (pa == x) ≡ false = differs role pa x (λ q. absurd (cc)) in
        let s = still xs a.1 in (((rw e a.0.0, a.0.1), s.0), (e, s.1))

    valid : IsValid (update role pa unused) m'
    valid = record {
      children = λ p i root l x h lt v.
          let t = was_table p root (suc l) x h in
          let e = same p root (suc l) x i t in
          tables (pte2pa (m'.pte p i)) root l (x * 512 + i)
            (rw e (w.children p i root l x t lt (rw e at v)));
      free_pages = ((rw (==_self pa), ground (arith, g)), (still m.free w.free_pages).0);
      distinct = ((still m.free w.free_pages).1, w.distinct);
    }

pub IsReleased-translation :
    (role role' : ℕ → Role) (pa : ℕ) (m m' : Memory)
    → IsValid role m
    → IsReleased role role' pa m m'
    → (r va : ℕ) → role r ≡ table r 2 0
    → va < maxva
    → (find 2 r va m' ≡ find 2 r va m) × (translation r va m' ≡ translation r va m)
IsReleased-translation role role' pa m m' w k r va h b =
    let t = top role r va b h in
    let f = find-same role m m' w k.same 2 r va r (omega arith) t in
    (f, entry-same role m m' w k.same 2 r va r (omega arith) t)
