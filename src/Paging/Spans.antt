-- ===== src/Paging/Spans.antt =====
-- The pages of mmu/src/mmap.rs: which addresses an entry of each level covers.
use orbit.Base.{
  ℕ, zero, suc, ◌+◌, ◌-◌, ◌*◌, ◌/◌, ◌%◌, ◌^◌, ◌≤◌, ◌<◌, ◌≡◌, ◌≢◌, refl, Bool, true, false, List,
  ◌∷◌, arith, ◌==◌, ==_iff,
}
use orbit.Paging.Entry.{vpn_n, vpn_offset}
use orbit.Paging.Entry.Laws.{vpn_n-mod}
use orbit.Paging.Tree.{above}

-- The bytes that an entry of a level maps: 4 KiB, 2 MiB, 1 GiB, 512 GiB.
unfoldable pub span : ℕ → ℕ
span zero = 4096
span (suc zero) = 2 ^ 21
span (suc (suc zero)) = 2 ^ 30
span (suc (suc (suc n))) = 2 ^ 39

-- Two addresses of one page: an address has 48 bits, and what lies above them repeats bit 47.
unfoldable pub same_page : ℕ → ℕ → ℕ → Bool
same_page size va w = va % 2 ^ 48 / size == w % 2 ^ 48 / size

pub same_page-vpn_n :
    (t va w k : ℕ) → t ≤ k → k ≤ 3 → same_page (span t) va w ≡ true → vpn_n va k ≡ vpn_n w k
unfolding same_page span vpn_offset
same_page-vpn_n t va w zero lo hi same =
    let z : t ≡ 0 = omega arith in
    let s0 = rw z at same in ground (arith, vpn_n-mod va 0, vpn_n-mod w 0, s0)
same_page-vpn_n zero va w (suc zero) lo hi same = ground (arith, vpn_n-mod va 1, vpn_n-mod w 1)
same_page-vpn_n (suc t) va w (suc zero) lo hi same =
    let z : t ≡ 0 = omega arith in
    let s0 = rw z at same in ground (arith, vpn_n-mod va 1, vpn_n-mod w 1, s0)
same_page-vpn_n zero va w (suc (suc zero)) lo hi same =
    ground (arith, vpn_n-mod va 2, vpn_n-mod w 2)
same_page-vpn_n (suc zero) va w (suc (suc zero)) lo hi same =
    ground (arith, vpn_n-mod va 2, vpn_n-mod w 2)
same_page-vpn_n (suc (suc t)) va w (suc (suc zero)) lo hi same =
    let z : t ≡ 0 = omega arith in
    let s0 = rw z at same in ground (arith, vpn_n-mod va 2, vpn_n-mod w 2, s0)
same_page-vpn_n zero va w (suc (suc (suc k))) lo hi same =
    ground (arith, vpn_n-mod va (suc (suc (suc k))), vpn_n-mod w (suc (suc (suc k))))
same_page-vpn_n (suc zero) va w (suc (suc (suc k))) lo hi same =
    ground (arith, vpn_n-mod va (suc (suc (suc k))), vpn_n-mod w (suc (suc (suc k))))
same_page-vpn_n (suc (suc zero)) va w (suc (suc (suc k))) lo hi same =
    ground (arith, vpn_n-mod va (suc (suc (suc k))), vpn_n-mod w (suc (suc (suc k))))
same_page-vpn_n (suc (suc (suc t))) va w (suc (suc (suc k))) lo hi same =
    ground (arith, vpn_n-mod va (suc (suc (suc k))), vpn_n-mod w (suc (suc (suc k))))

head_eq : {a b : ℕ} {xs ys : List ℕ} → (a ∷ xs) ≡ (b ∷ ys) → a ≡ b
head_eq e = cc

tail_eq : {a b : ℕ} {xs ys : List ℕ} → (a ∷ xs) ≡ (b ∷ ys) → xs ≡ ys
tail_eq e = cc

-- Equal routes make one page.
route-same_page :
    (t va w : ℕ)
    → t ≤ 3
    → (vpn_n va t ∷ above (3 - t) va t) ≡ (vpn_n w t ∷ above (3 - t) w t)
    → same_page (span t) va w ≡ true
unfolding same_page span vpn_offset above
route-same_page zero va w le e =
    let e0 = head_eq e in
    let e1 = head_eq (tail_eq e) in
    let e2 = head_eq (tail_eq (tail_eq e)) in
    let e3 = head_eq (tail_eq (tail_eq (tail_eq e))) in
    let parts : va % 2 ^ 48 / 4096 ≡ w % 2 ^ 48 / 4096 = omega (
      arith,
      e0,
      e1,
      e2,
      e3,
      vpn_n-mod va 0,
      vpn_n-mod w 0,
      vpn_n-mod va 1,
      vpn_n-mod w 1,
      vpn_n-mod va 2,
      vpn_n-mod w 2,
      vpn_n-mod va 3,
      vpn_n-mod w 3,
    ) in
    (==_iff (va % 2 ^ 48 / 4096) (w % 2 ^ 48 / 4096)).1 parts
route-same_page (suc zero) va w le e =
    let e1 = head_eq e in
    let e2 = head_eq (tail_eq e) in
    let e3 = head_eq (tail_eq (tail_eq e)) in
    let parts : va % 2 ^ 48 / 2 ^ 21 ≡ w % 2 ^ 48 / 2 ^ 21 = omega (
      arith,
      e1,
      e2,
      e3,
      vpn_n-mod va 1,
      vpn_n-mod w 1,
      vpn_n-mod va 2,
      vpn_n-mod w 2,
      vpn_n-mod va 3,
      vpn_n-mod w 3,
    ) in
    (==_iff (va % 2 ^ 48 / 2 ^ 21) (w % 2 ^ 48 / 2 ^ 21)).1 parts
route-same_page (suc (suc zero)) va w le e =
    let e2 = head_eq e in
    let e3 = head_eq (tail_eq e) in
    let parts : va % 2 ^ 48 / 2 ^ 30 ≡ w % 2 ^ 48 / 2 ^ 30 =
      omega (arith, e2, e3, vpn_n-mod va 2, vpn_n-mod w 2, vpn_n-mod va 3, vpn_n-mod w 3) in
    (==_iff (va % 2 ^ 48 / 2 ^ 30) (w % 2 ^ 48 / 2 ^ 30)).1 parts
route-same_page (suc (suc (suc t))) va w le e =
    let e3 = head_eq e in
    let top : suc (suc (suc t)) ≡ 3 = omega arith in
    let parts : va % 2 ^ 48 / 2 ^ 39 ≡ w % 2 ^ 48 / 2 ^ 39 =
      omega (arith, e3, vpn_n-mod va (suc (suc (suc t))), vpn_n-mod w (suc (suc (suc t)))) in
    (==_iff (va % 2 ^ 48 / 2 ^ 39) (w % 2 ^ 48 / 2 ^ 39)).1 parts

pub apart_routes :
    (t va w : ℕ)
    → t ≤ 3
    → same_page (span t) va w ≡ false
    → (vpn_n va t ∷ above (3 - t) va t) ≢ (vpn_n w t ∷ above (3 - t) w t)
apart_routes t va w le h e = let s = route-same_page t va w le e in cc

pub span-pow : (t : ℕ) → t ≤ 3 → span t ≡ 2 ^ (12 + 9 * t)
unfolding span
span-pow zero le = refl
span-pow (suc zero) le = refl
span-pow (suc (suc zero)) le = refl
span-pow (suc (suc (suc t))) le = let top : t ≡ 0 = omega arith in rw top refl

pub mod-span : (t a : ℕ) → a % span t ≡ 0 → a % 4096 ≡ 0
unfolding span
mod-span zero a h = h
mod-span (suc zero) a h = omega arith
mod-span (suc (suc zero)) a h = omega arith
mod-span (suc (suc (suc t))) a h = omega arith

pub mod-lt-span : (t a : ℕ) → a % span t < 2 ^ 40
unfolding span
mod-lt-span zero a = omega arith
mod-lt-span (suc zero) a = omega arith
mod-lt-span (suc (suc zero)) a = omega arith
mod-lt-span (suc (suc (suc t))) a = omega arith
