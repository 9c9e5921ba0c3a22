-- ===== src/Virtqueue/Tests.antt =====
-- A queue of four descriptors of virtio/src/queue.rs: a request pushed, and its completion.
use orbit.Base.{
  ℕ, ◌+◌, ◌%◌, ◌^◌, ◌≡◌, refl, ◌⊎◌, true, false, Option, none, some, List, [], ◌∷◌, ◌++◌, arith,
  mem,
}
use orbit.Virtqueue.{
  VirtqDesc, VirtqUsed, Buf, Virtqueue, Popped, popped, new, refuses, gather, after, populate,
  push_chain, find_tail, pop_used, peek_free_head, has_used,
}
use orbit.Virtqueue.Chains.{Follows}
use orbit.Virtqueue.Push.{Pushed, push_chain-Pushed}
use orbit.Virtqueue.Pop.{pop_used-Follows}

abbrev empty_desc : VirtqDesc
empty_desc = record { addr = 0; len = 0; flags = 0; next = 0 }

fresh_queue : Virtqueue
unfolding new
fresh_queue = new (λ i. empty_desc) (λ i. 0) 4

abbrev request : List Buf
request =
    record { pa = 0x8000; size = 16; write = false }
    ∷ record { pa = 0x9000; size = 512; write = true }
    ∷ []

pushed_run : (push_chain request fresh_queue).0 ≡ some 0
unfolding push_chain fresh_queue refuses
pushed_run = refl

after_push : Virtqueue
unfolding fresh_queue push_chain refuses gather after populate
after_push = (push_chain request fresh_queue).1

too_long : (push_chain (request ++ request) after_push).0 ≡ none
unfolding push_chain refuses after_push
too_long = refl

next_free : peek_free_head after_push ≡ some 2
unfolding peek_free_head after_push
next_free = refl

abbrev done_ring : VirtqUsed
done_ring = record { idx = 1; ring = λ i. record { id = 0; written = 513 } }

noticed : has_used done_ring after_push ≡ true
unfolding has_used after_push
noticed = refl

free_again : Popped → Option ℕ
free_again (popped head written q) = some q.num_free
free_again other = none

popped_run : free_again (pop_used done_ring after_push) ≡ some 4
unfolding pop_used after_push find_tail free_again
popped_run = refl

push_chain-Pushed_example :
    Pushed fresh_queue request (0 ∷ 1 ∷ 2 ∷ 3 ∷ []) (push_chain request fresh_queue)
unfolding fresh_queue
push_chain-Pushed_example =
    push_chain-Pushed fresh_queue request (0 ∷ 1 ∷ 2 ∷ 3 ∷ []) (refl, (refl, (refl, (refl, tt))))
      (refl, (refl, (refl, (refl, tt)))) refl

pop_used-Follows_example :
    (q' : Virtqueue) × (pop_used done_ring after_push ≡ popped 0 513 q')
    × Follows q'.desc q'.free_head (0 ∷ 1 ∷ 2 ∷ 3 ∷ [])
    × (4 ≡ q'.num_free)
    × (q'.last_used_idx ≡ (after_push.last_used_idx + 1) % 2 ^ 16)
    × ((j : ℕ) → (mem j (0 ∷ 1 ∷ []) ≡ true) ⊎ (q'.desc j ≡ after_push.desc j))
unfolding after_push
pop_used-Follows_example =
    pop_used-Follows after_push done_ring (2 ∷ 3 ∷ []) 0 (1 ∷ []) (refl, (refl, tt))
      (refl, refl, refl) (refl, (refl, (refl, (refl, tt)))) refl (omega arith) (omega arith) refl
