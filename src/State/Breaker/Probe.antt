-- ===== src/State/Breaker/Probe.antt =====
-- internal/breaker/breaker.go: the single probe, and what its outcome does.
use fold.Prelude.{
  ℕ, suc, ◌≤◌, leb_int, sub_ℕ, true, false, List, [], ◌∷◌, ◌≡◌, refl, ◌≢◌, arith, if◌then◌else◌,
}
use fold.State.Breaker.{closed, half_open, Breaker, allow, record_outcome}

-- How many of the requests that ask at these times are let through, with no outcome reported.
unfoldable pub admitted : List ℕ → Breaker → ℕ
unfolding allow
admitted [] b = 0
admitted (now ∷ times) b =
    let (b', ok) = allow b now in let rest = admitted times b' in if ok then suc rest else rest

admitted-probing :
    (times : List ℕ) (b : Breaker) → b.state ≡ half_open → b.probing ≡ true → admitted times b ≡ 0
unfolding admitted
admitted-probing [] b h k = refl
admitted-probing (now ∷ times) b h k =
    let blocked : allow b now ≡ (b, false) = unfold allow in rw (h, allow) (rw k refl) in
    rw blocked (admitted-probing times b h k)

-- While a circuit is not closed, at most one request is let through until an outcome is reported,
-- however many ask and whenever they do.
pub admitted-le_one : (times : List ℕ) (b : Breaker) → b.state ≢ closed → admitted times b ≤ 1
unfolding admitted allow
admitted-le_one [] b h = omega arith
admitted-le_one (now ∷ times) b h =
    let b' = (allow b now).0 in ground (arith, admitted-probing times b', admitted-le_one times b')

-- The outcome of a probe decides: a success closes the circuit and lets everything through, and a
-- failure refuses every request until the cool-down has passed once more.
pub probe_outcome :
    (b : Breaker) (now later : ℕ)
    → b.state ≡ half_open
    → ((allow (record_outcome true now b) later).1 ≡ true)
      × ((allow (record_outcome false now b) later).1 ≡ leb_int b.half_open_after (sub_ℕ later now))
unfolding allow record_outcome
probe_outcome b now later h = (refl, rw h (ground arith))
