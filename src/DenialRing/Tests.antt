-- ===== src/DenialRing/Tests.antt =====
-- A ring of orbit-core/src/denial_ring.rs with one event.
use orbit.Base.{◌≡◌, [], ◌∷◌, arith, length, take, drop, replicate}
use orbit.Perms.{DenialEvent, perm_deny, role_deny}
use orbit.DenialRing.{push_all, latest, push_all-latest, snapshot, snapshot_lem}

abbrev first : DenialEvent
first = perm_deny 128 17 100 7 6001 2 3

abbrev next : DenialEvent
next = role_deny 200 7 6 3 2 3

push_all-latest_example :
    push_all (first ∷ []) (replicate 70 next) ≡ latest (first ∷ replicate 70 next)
push_all-latest_example = push_all-latest (first ∷ []) (replicate 70 next) (omega arith)

snapshot_lem_example :
    let r = snapshot (first ∷ next ∷ []) (next ∷ []) in
    (length (r.0) ≡ 1)
    × (take (r.1) (r.0) ≡ take (r.1) (first ∷ next ∷ []))
    × (drop (r.1) (r.0) ≡ drop (r.1) (next ∷ []))
snapshot_lem_example = snapshot_lem (first ∷ next ∷ []) (next ∷ [])
