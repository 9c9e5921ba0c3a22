-- ===== src/Mappings/Fit.antt =====
-- What the searches of process/src/lib.rs for a free range promise.
use orbit.Base.{
  ℕ, ◌+◌, ◌-◌, ◌*◌, ◌/◌, ◌%◌, ◌^◌, ◌≤◌, ◌<◌, ◌≡◌, ap, ◌∙◌, ◌⊎◌, inl, inr, ltb, leb, leb→le, ltb→lt,
  [], ◌∷◌, Option, none, some, All, arith, Bool-cases,
}
use orbit.Base.Bits.{bit_and-shift, bit_and-ones}
use orbit.Mappings.{UserMapping, Maps, end_of, range_from, round_up, fit, pick_user_vaddr}

-- The end of a mapping, as a sum that does not wrap.
abbrev pub past : UserMapping → ℕ
past m = m.vaddr + m.len

-- A range that a mapping leaves alone.
abbrev pub Clear : ℕ → ℕ → ℕ × UserMapping → Type 0
Clear v len e = (v + len ≤ (e.1).vaddr) ⊎ (past (e.1) ≤ v)

-- The keys are the addresses, and each mapping ends before the next begins.
abbrev pub Spaced : ℕ → Maps → Type 0
Spaced n [] = Unit
Spaced n ((k, m) ∷ rest) = (k ≡ m.vaddr) × (n ≤ m.vaddr) × Spaced (past m) rest

Spaced-after : (n n' : ℕ) (maps : Maps) → n' ≤ n → Spaced n maps → Spaced n' maps
Spaced-after n n' [] h s = tt
Spaced-after n n' ((k, m) ∷ rest) h s = (s.0, omega (arith, h, s.1), s.2)

All-Clear : (v len n : ℕ) (maps : Maps) → v + len ≤ n → Spaced n maps → All (Clear v len) maps
All-Clear v len n [] h s = tt
All-Clear v len n ((k, m) ∷ rest) h s =
    let on : n ≤ past m = omega (arith, s.1) in
    (inl (omega (arith, h, s.1)), All-Clear v len n rest h (Spaced-after (past m) n rest on (s.2)))

-- For pages of 2 ^ 12, as long as the sum stays below 2 ^ 64.
round_up_page :
    (x : ℕ) → x + 2 ^ 12 ≤ 2 ^ 64 → round_up x (2 ^ 12) ≡ (x + 2 ^ 12 - 1) / 2 ^ 12 * 2 ^ 12
unfolding round_up
round_up_page x h =
    let y = (x + 2 ^ 12 - 1) % 2 ^ 64 in
    bit_and-shift 12 y (2 ^ 52 - 1)
    ∙ ap (λ z. z * 2 ^ 12) (bit_and-ones 52 (y / 2 ^ 12))
    ∙ omega (arith, h)

-- The end leaves room for the rounding and for a range of the length sought.
abbrev pub Roomy : ℕ → ℕ × UserMapping → Type 0
Roomy len e = past (e.1) + 2 ^ 12 + len ≤ 2 ^ 64

end_of-past : (m : UserMapping) (len : ℕ) → past m + 2 ^ 12 + len ≤ 2 ^ 64 → end_of m ≡ past m
end_of-past m len h = omega (arith, h)

fit_lem :
    (maps : Maps) (len top candidate v n : ℕ)
    → Spaced n maps
    → All (Roomy len) maps
    → candidate % 2 ^ 12 ≡ 0
    → candidate ≤ (n + 2 ^ 12 - 1) / 2 ^ 12 * 2 ^ 12
    → candidate + len < 2 ^ 64
    → fit len (2 ^ 12) top candidate maps ≡ some v
    → All (Clear v len) maps × (candidate ≤ v) × (v % 2 ^ 12 ≡ 0)
fit_lem [] len top candidate v n s r a c b h =
    elim (Bool-cases (leb ((candidate + len) % 2 ^ 64) top)) [
      | inl e ↦
          let same : ◌≡◌ {A = Option ℕ} (some candidate) (some v) = rw e at h in
          let hit : candidate ≡ v = cc in (tt, omega (arith, hit), omega (arith, hit, a))
      | inr e ↦ let same : ◌≡◌ {A = Option ℕ} none (some v) = rw e at h in absurd (no_hit same)
    ]
  where
    no_hit : ◌≡◌ {A = Option ℕ} none (some v) → ⊥
    no_hit p = cc
fit_lem ((k, m) ∷ rest) len top candidate v n s r a c b h =
    elim (Bool-cases (leb ((candidate + len) % 2 ^ 64) m.vaddr)) [
      | inl e ↦
          let same : ◌≡◌ {A = Option ℕ} (some candidate) (some v) = rw e at h in
          let hit : candidate ≡ v = cc in
          let before : v + len ≤ m.vaddr = omega (arith, hit, b, leb→le _ _ e) in
          (
            All-Clear v len m.vaddr ((k, m) ∷ rest) before (s.0, omega arith, s.2),
            omega (arith, hit),
            omega (arith, hit, a),
          )
      | inr e ↦
          let end = end_of-past m len (r.0) in
          let up : round_up (end_of m) (2 ^ 12) ≡ (past m + 2 ^ 12 - 1) / 2 ^ 12 * 2 ^ 12 =
            ap (λ x. round_up x (2 ^ 12)) end ∙ round_up_page (past m) (omega (arith, r.0)) in
          let t =
            fit_lem rest len top (round_up (end_of m) (2 ^ 12)) v (past m) (s.2) (r.1)
              (omega (arith, up)) (omega (arith, up)) (omega (arith, up, r.0)) (rw e at h) in
          let behind : past m ≤ v = omega (arith, up, t.1) in
          ((inr behind, t.0), omega (arith, up, t.1, c, s.1), t.2)
    ]

-- No mapping lies across the address.
abbrev pub Splits : ℕ → ℕ × UserMapping → Type 0
Splits v e = (v ≤ (e.1).vaddr) ⊎ (past (e.1) ≤ v)

range_fit :
    (maps : Maps) (len top candidate v n : ℕ)
    → Spaced n maps
    → All (Roomy len) maps
    → All (Splits candidate) maps
    → candidate % 2 ^ 12 ≡ 0
    → candidate + len < 2 ^ 64
    → fit len (2 ^ 12) top candidate (range_from candidate maps) ≡ some v
    → All (Clear v len) maps × (candidate ≤ v) × (v % 2 ^ 12 ≡ 0)
range_fit [] len top candidate v n s r p a b h =
    fit_lem [] len top candidate v candidate tt tt a (omega (arith, a)) b h
range_fit ((k, m) ∷ rest) len top candidate v n s r p a b h = elim (Bool-cases (ltb k candidate)) [
  | inl e ↦
      let below : k < candidate = ltb→lt k candidate e in
      let t = range_fit rest len top candidate v (past m) (s.2) (r.1) (p.1) a b (rw e at h) in
      let done_before : past m ≤ candidate = elim (p.0) [
        | inl q ↦ absurd (omega (arith, q, s.0, below))
        | inr q ↦ q
      ] in
      ((inr (omega (arith, done_before, t.1)), t.0), t.1, t.2)
  | inr e ↦
      let above : candidate ≤ k = ground (arith, e) in
      fit_lem ((k, m) ∷ rest) len top candidate v m.vaddr (s.0, omega arith, s.2) r a
        (omega (arith, above, s.0, a)) b (rw e at h)
]

-- For pages of 2 ^ 12 bytes, over mappings that do not overlap, with the ends of the mappings and the
-- cursor so far below 2 ^ 64 that a page and the length sought still fit, and a cursor that, rounded up
-- to a page, lies within no mapping: an address that the search answers is page-aligned, at or above
-- the cursor, and its range meets no mapping.
pub pick_user_vaddr-Clear :
    (maps : Maps) (cursor len top v : ℕ)
    → Spaced 0 maps
    → All (Roomy len) maps
    → All (Splits (round_up cursor (2 ^ 12))) maps
    → cursor + 2 ^ 12 + len ≤ 2 ^ 64
    → pick_user_vaddr maps cursor len (2 ^ 12) top ≡ some v
    → All (Clear v len) maps × (cursor ≤ v) × (v % 2 ^ 12 ≡ 0)
unfolding pick_user_vaddr
pick_user_vaddr-Clear maps cursor len top v s r p room h =
    let up = round_up_page cursor (omega (arith, room)) in
    let t =
      range_fit maps len top (round_up cursor (2 ^ 12)) v 0 s r p (omega (arith, up))
        (omega (arith, up, room)) h in
    (t.0, omega (arith, up, t.1), t.2)
