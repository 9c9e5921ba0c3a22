-- ===== src/Mappings/Tests.antt =====
-- Two mappings of process/src/lib.rs with a page between them, and one that the search misses.
use orbit.Base.{◌-◌, ◌^◌, ℕ, ◌≡◌, ◌≤◌, ◌%◌, refl, inl, [], ◌∷◌, some, All, arith}
use orbit.Mappings.{UserMapping, Maps, anon, round_up, pick_user_vaddr}
use orbit.Mappings.Fit.{Clear, pick_user_vaddr-Clear}

abbrev page_at : ℕ → ℕ × UserMapping
page_at v = (v, record { vaddr = v; len = 0x1000; perms = 3; kind = anon })

abbrev maps : Maps
maps = page_at 0x1000 ∷ page_at 0x3000 ∷ []

pick_user_vaddr-Clear_example :
    All (Clear 0x2000 0x1000) maps × (0x1000 ≤ 0x2000) × (0x2000 % 4096 ≡ 0)
unfolding round_up
pick_user_vaddr-Clear_example =
    pick_user_vaddr-Clear maps 0x1000 0x1000 0x10000 0x2000
      (refl, omega arith, (refl, omega arith, tt)) (omega arith, (omega arith, tt))
      (inl (omega arith), (inl (omega arith), tt)) (omega arith) (unfold pick_user_vaddr in refl)

-- A mapping that begins below the cursor and ends above it is not seen.
abbrev long_range : Maps
long_range = (0, record { vaddr = 0; len = 0x5000; perms = 3; kind = anon }) ∷ []

misses_straddling : pick_user_vaddr long_range 0x2000 0x1000 4096 0x10000 ≡ some 0x2000
unfolding pick_user_vaddr round_up
misses_straddling = refl

-- A length near 2 ^ 64 wraps the sum, and the answer covers the second mapping.
misses_wrapped : pick_user_vaddr maps 0x2000 (2 ^ 64 - 0x1000) 4096 0x10000 ≡ some 0x2000
unfolding pick_user_vaddr round_up
misses_wrapped = refl

-- An answer before a mapping may end above `top`.
beyond_top : pick_user_vaddr maps 0x2000 0x1000 4096 0x2000 ≡ some 0x2000
unfolding pick_user_vaddr round_up
beyond_top = refl
