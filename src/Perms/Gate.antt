-- ===== src/Perms/Gate.antt =====
-- The gate of orbit-abi/src/perms.rs before a system call.
use orbit.Base.{
  ℕ, ◌≡◌, refl, sym, ap, ◌∙◌, inl, inr, true, false, ◌==◌, ==_iff, ◌&&◌, List, [], ◌∷◌, ◌++◌,
  bit_and, Bool-cases, arith, if◌then◌else◌, ◌%◌, ◌^◌,
}
use orbit.Base.Bits.{bit_and_self, bit_and_assoc, bit_and_comm}
use orbit.Perms.{
  Permissions, PermsRequest, GateContext, DenialEvent, perm_deny, class_for, allows, can_call,
  contains, narrow, pledge,
}

-- Containment in an intersection is containment in both.
contains-narrow : (a r c : ℕ) → contains (narrow a r) c ≡ (contains a c && contains r c)
unfolding contains narrow
contains-narrow a r c = elim (Bool-cases (bit_and a c == c)) [
  | inl e ↦
      let inside : bit_and a c ≡ c = (==_iff (bit_and a c) c).0 e in
      let swap : bit_and (bit_and a r) c ≡ bit_and r c =
        bit_and_assoc a r c
        ∙ ap (bit_and a) (bit_and_comm r c)
        ∙ sym (bit_and_assoc a c r)
        ∙ ap (λ x. bit_and x r) inside
        ∙ bit_and_comm c r in
      rw (e, swap) refl
  | inr e ↦ rw e (elim (Bool-cases (bit_and (bit_and a r) c == c)) [
    | inr f ↦ f
    | inl f ↦
        let both : bit_and (bit_and a r) c ≡ c = (==_iff _ c).0 f in
        let inside : bit_and a c ≡ c =
          ap (bit_and a) (sym both)
          ∙ sym (bit_and_assoc a (bit_and a r) c)
          ∙ ap (λ x. bit_and x c)
              (sym (bit_and_assoc a a r) ∙ ap (λ x. bit_and x r) (bit_and_self a))
          ∙ both in
        absurd (ground (arith, e, inside))
  ])
]

-- After a pledge a call passes the gate exactly if it passed before and the request contains its
-- class. A call that passes pushes nothing, and one that does not pushes exactly one event, which
-- names the class and the caller.
pub can_call-pledge :
    (p : Permissions) (request : PermsRequest) (sysno : ℕ) (ctx : GateContext)
    (sink : List DenialEvent)
    → let passes = allows p sysno && contains request.perms (class_for sysno) in
      can_call (pledge p request) sysno ctx sink ≡ (
        if passes then (true, sink) else (
          false,
          sink
              ++ (perm_deny
                    (class_for sysno)
                    (narrow p.perms request.perms)
                    ctx.time_ticks
                    ctx.tid
                    (sysno % 2 ^ 32)
                    p.role
                    ctx.pid
                  ∷ []),
        ))
unfolding can_call allows pledge
can_call-pledge p request sysno ctx sink = elim (Bool-cases (class_for sysno == 0)) [
  | inl none_such ↦ rw none_such refl
  | inr some_class ↦ rw (some_class, contains-narrow p.perms request.perms (class_for sysno)) refl
]
