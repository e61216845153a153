-- ===== src/Server/Loop/Served.antt =====
-- The loop of A3/server.c over the ready sockets against its description: each of them is served
-- once, from the lowest to the highest.
use operating_systems_fa.Common.{
  >>=-same, >>=-same, Bool, Bool-cases, List, Option, [], arith, if◌then◌else◌, inl, inr, ltb, refl,
  some, suc, true, zero, ℕ, ◌+◌, ◌<◌, ◌==◌, ◌>>=◌, ◌∷◌, ◌≡◌, ◌≢◌, ◌≤◌,
}
use operating_systems_fa.Server.{Server, fd_setsize}
use operating_systems_fa.Server.Loop.{Round, serve, ready_loop, handle_ready}
use operating_systems_fa.Server.Loop.Narrower.{receive_message-Narrower}
use operating_systems_fa.Server.Loop.Watched.{
  Watched, Narrower-Watched, accept_connection-Watched, accept_connection-others,
}

-- The ready sockets among `k` from `i` on, in ascending order.
unfoldable pub ready_from : (k i : ℕ) → (ℕ → Bool) → List ℕ
ready_from zero i ready = []
ready_from (suc k) i ready =
    let rest = ready_from k (i + 1) ready in if ready i then i ∷ rest else rest

-- These sockets, one after the other.
unfoldable pub serve_all : List ℕ → Round → Server → Option Server
serve_all [] r s = some s
serve_all (i ∷ sockets) r s = do s' ← serve r i s; serve_all sockets r s'

serve-grows :
    (r : Round) (i : ℕ) (s : Server) {s' : Server}
    → serve r i s ≡ some s'
    → Watched s
    → Watched s' × (s.max_fd ≤ s'.max_fd)
unfolding serve
serve-grows r i s e w = elim (Bool-cases (i == s.server_fd)) [
  | inl at ↦
      let (w', grown, _) = accept_connection-Watched r.accepted s (rw (serve, at) at e) w in
      (w', grown)
  | inr other ↦
      let narrow = receive_message-Narrower i (r.now i) (r.answer i) s (rw (serve, other) at e) in
      (Narrower-Watched narrow w, omega (arith, narrow.max_fd))
]

-- Another socket stays open.
pub serve-others :
    (r : Round) (i : ℕ) (s : Server) {s' : Server}
    → serve r i s ≡ some s'
    → (j : ℕ) → j ≢ i
    → s.current_sockets j ≡ true
    → s'.current_sockets j ≡ true
unfolding serve
serve-others r i s e j ne is_open = elim (Bool-cases (i == s.server_fd)) [
  | inl at ↦ accept_connection-others r.accepted s (rw (serve, at) at e) j is_open
  | inr other ↦
      let narrow = receive_message-Narrower i (r.now i) (r.answer i) s (rw (serve, other) at e) in
      narrow.others j ne is_open
]

-- Nothing is ready beyond the bound.
ready_from-nil :
    (k i : ℕ) (ready : ℕ → Bool) → ((j : ℕ) → ready j ≡ true → j < i) → ready_from k i ready ≡ []
unfolding ready_from
ready_from-nil zero i ready below = refl
ready_from-nil (suc k) i ready below = elim (Bool-cases (ready i)) [
  | inl at ↦ absurd (omega (arith, below i at))
  | inr not_at ↦ rw not_at (ready_from-nil k (i + 1) ready (λ j at. omega (arith, below j at)))
]

ready_loop-serve_all :
    (k i : ℕ) (r : Round) (s : Server)
    → Watched s
    → ((j : ℕ) → r.ready_sockets j ≡ true → j ≤ s.max_fd)
    → ready_loop k i r s ≡ serve_all (ready_from k i r.ready_sockets) r s
unfolding ready_loop ready_from serve_all
ready_loop-serve_all zero i r s w bound = refl
ready_loop-serve_all (suc k) i r s w bound = elim (Bool-cases (ltb i (s.max_fd + 1))) [
  | inr beyond ↦
      rw
        (
          beyond,
          ready_from-nil (suc k) i r.ready_sockets (λ j at. ground (arith, bound j at, beyond)),
        )
        refl
  | inl inside ↦ elim (Bool-cases (r.ready_sockets i)) [
    | inr not_at ↦ rw (inside, not_at) (ready_loop-serve_all k (i + 1) r s w bound)
    | inl at ↦
        rw (inside, at)
          (>>=-same (serve r i s) _ _ (λ s' served.
            let (w', grown) = serve-grows r i s served w in
            ready_loop-serve_all k (i + 1) r s' w' (λ j at_j. omega (arith, bound j at_j, grown))))
  ]
]

-- The loop serves every ready socket once, in ascending order, and no other, although the bound of
-- the loop may change while it runs: if the ready sockets are open ones, as `select` promises, and
-- the bound is right at the beginning.
pub handle_ready-serve_all :
    (r : Round) (s : Server)
    → Watched s
    → ((i : ℕ) → r.ready_sockets i ≡ true → s.current_sockets i ≡ true)
    → handle_ready r s ≡ serve_all (ready_from fd_setsize 0 r.ready_sockets) r s
unfolding handle_ready
handle_ready-serve_all r s w were_open =
    ready_loop-serve_all fd_setsize 0 r s w (λ j at. w.sockets j (were_open j at))
