-- ===== src/Tests/Kalloc.antt =====
-- The allocator with a few pages.
use mc.Prelude.{ℕ, ◌+◌, ◌≡◌, refl, ◌⊎◌, List, [], ◌∷◌, none}
use mc.Kalloc.{Kmem, kfree, kalloc}
use mc.Kalloc.Pages.{Holds, NotIn, kalloc_lem}

-- the end of the kernel's image
abbrev image_end : ℕ
image_end = 2147618800

abbrev page : ℕ
page = 2147622912

abbrev none_free : Kmem
none_free = record { freelist = 0; word = λ a. 7 }

none_free-Holds : Holds image_end none_free []
none_free-Holds = record { chain = refl; distinct = tt; good = tt }

abbrev one_free : Kmem
one_free = record { freelist = page; word = λ a. 0 }

one_free-Holds : Holds image_end one_free (page ∷ [])
one_free-Holds = record { chain = (refl, refl, refl); distinct = (tt, tt); good = (refl, tt) }

kalloc_lem_example :
    ((page ∷ [] ≡ []) × (kalloc one_free ≡ (0, one_free)))
    ⊎ ((p : ℕ) × (rest : List ℕ) × (page ∷ [] ≡ p ∷ rest)
        × ((kalloc one_free).0 ≡ p)
        × NotIn p rest
        × Holds image_end (kalloc one_free).1 rest)
kalloc_lem_example = kalloc_lem image_end one_free (page ∷ []) one_free-Holds

refuses_odd_address : kfree image_end (page + 1) none_free ≡ none
unfolding kfree
refuses_odd_address = refl
