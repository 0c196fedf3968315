-- ===== src/Syslog/Timeout.antt =====
-- `write` of src/syslog.rs comes to an end.
use captains_log.Base.{
  ℕ, zero, suc, ◌+◌, ◌-◌, ◌≤◌, ◌<◌, ◌≡◌, ◌≢◌, refl, ap, ◌∙◌, Bool, true, false, Outcome, ◌>>=◌, inl,
  inr, List, [], ◌∷◌, Option, none, some, Bool-cases, Option-cases, arith, returned, ltb,
}
use captains_log.Methods.{Io, ok, err}
use captains_log.Syslog.{
  waits, Datagram, connected, wrong_type, refused, Net, Backend, tcp_server, udp_server,
  unix_server, SyslogAddr, connect_unix, connect_tcp, connect_udp, connect_local, connect, reinit,
  try_write, try_again, retry, enough, write,
}

-- The calls that may wait for the server come back, with success or an error: connecting to a Unix
-- stream, and writing, for which the code sets no timeout. The other ones of `Net` do not wait, or have a
-- timeout.
pub record Responds {T P A K W : Type 0} (net : Net T P A K W) : Type 0 where
  pub stream : (p : P) (w : W) → net.connect_stream p w ≢ none
  pub write_all : (k : K) (msg : List ℕ) (w : W) → net.write_all k msg w ≢ none

-- The clock does not go back, and a sleep takes its time.
pub record Clock {T P A K W : Type 0} (net : Net T P A K W) : Type 0 where
  pub datagram : (p : P) (w : W) → net.now w ≤ net.now (net.connect_datagram p w).1
  pub stream :
      (p : P) (w : W) (r : Io K) (w' : W)
      → net.connect_stream p w ≡ some (r, w')
      → net.now w ≤ net.now w'
  pub addrs : (t : T) (w : W) → net.now w ≤ net.now (net.to_socket_addrs t w).1
  pub tcp : (a : A) (d : ℕ) (w : W) → net.now w ≤ net.now (net.connect_timeout a d w).1
  pub udp : (t : T) (a : A) (w : W) → net.now w ≤ net.now (net.bind_udp t a w).1
  pub wrote :
      (k : K) (msg : List ℕ) (w : W) (r : Io (Unit {0})) (w' : W)
      → net.write_all k msg w ≡ some (r, w')
      → net.now w ≤ net.now w'
  pub slept : (d : ℕ) (w : W) → net.now w + d ≤ net.now (net.sleep d w)

module _ {T P A K W : Type 0} (net : Net T P A K W) (responds : Responds net)
    (clock : Clock net) where
  -- It returns, and the clock has not gone back.
  abbrev Connects : W → Outcome (Io K × W) → Type 0
  Connects w o = (r : Io K) × (w' : W) × (o ≡ returned (r, w')) × (net.now w ≤ net.now w')

  datagram_later :
      (p : P) (w : W) (r : Datagram K) (w1 : W)
      → net.now w ≤ net.now w1
      → Connects w (elim r as (λ x. Outcome (Io K × W)) [
        | connected k ↦ returned (ok k, w1)
        | wrong_type ↦ waits (net.connect_stream p w1)
        | refused ↦ returned (err, w1)
      ])
  datagram_later p w (connected k) w1 l = (ok k, w1, refl, l)
  datagram_later p w refused w1 l = (err, w1, refl, l)
  datagram_later p w wrong_type w1 l = elim (Option-cases (net.connect_stream p w1)) [
    | inl n ↦ absurd (responds.stream p w1 n)
    | inr ((r, w2), e) ↦ (r, w2, rw e refl, omega (arith, l, clock.stream p w1 r w2 e))
  ]

  connect_unix_later : (p : P) (w : W) → Connects w (connect_unix net p w)
  unfolding connect_unix
  connect_unix_later p w =
      let (r, w1) = net.connect_datagram p w in datagram_later p w r w1 (clock.datagram p w)

  connect_tcp_later : (t : T) (d : ℕ) (w : W) → net.now w ≤ net.now (connect_tcp net t d w).1
  unfolding connect_tcp
  connect_tcp_later t d w =
      grind (arith, clock.addrs t w, λ (a : A). clock.tcp a d (net.to_socket_addrs t w).1)

  connect_udp_later : (f t : T) (w : W) → net.now w ≤ net.now (connect_udp net f t w).1
  unfolding connect_udp
  connect_udp_later f t w =
      grind (arith, clock.addrs t w, λ (a : A). clock.udp f a (net.to_socket_addrs t w).1)

  next_path :
      (ps : List P) (d : ℕ) (w : W) (r : Io K) (w1 : W)
      → net.now w ≤ net.now w1
      → Connects w1 (connect_local net ps d w1)
      → Connects w (elim r as (λ x. Outcome (Io K × W)) [
        | ok k ↦ returned (ok k, w1)
        | err ↦ connect_local net ps d w1
      ])
  next_path ps d w (ok k) w1 l rest = (ok k, w1, refl, l)
  next_path ps d w err w1 l (r, w2, e, l2) = (r, w2, e, omega (arith, l, l2))

  connect_local_later : (ps : List P) (d : ℕ) (w : W) → Connects w (connect_local net ps d w)
  unfolding connect_local
  connect_local_later [] d w =
      let (r, w1) = connect_tcp net net.local_tcp d w in
      (r, w1, refl, connect_tcp_later net.local_tcp d w)
  connect_local_later (p ∷ ps) d w =
      let (r, w1, e, l) = connect_unix_later p w in
      let (r2, w2, e2, l2) = next_path ps d w r w1 l (connect_local_later ps d w1) in
      (
        r2,
        w2,
        ap
              (λ o. o >>= λ (r, w1). elim r [
                | ok k ↦ returned (ok k, w1)
                | err ↦ connect_local net ps d w1
              ])
              e
            ∙ e2,
        l2,
      )

  connect_later :
      (server : Option (SyslogAddr T P)) (d : ℕ) (w : W) → Connects w (connect net server d w)
  unfolding connect
  connect_later none d w = connect_local_later net.unix_paths d w
  connect_later (some (unix_server p)) d w = connect_unix_later p w
  connect_later (some (udp_server f t)) d w =
      let (r, w1) = connect_udp net f t w in (r, w1, refl, connect_udp_later f t w)
  connect_later (some (tcp_server t)) d w =
      let (r, w1) = connect_tcp net t d w in (r, w1, refl, connect_tcp_later t d w)

  -- The clock goes on and the timeout stays.
  abbrev Later : Backend T P K W → ℕ → Backend T P K W → Type 0
  Later s d s' = (net.now s.world + d ≤ net.now s'.world) × (s'.timeout ≡ s.timeout)

  abbrev Steps : {B : Type 0} → Backend T P K W → ℕ → Outcome (B × Backend T P K W) → Type 0
  Steps {B} s d o = (r : B) × (s' : Backend T P K W) × (o ≡ returned (r, s')) × Later s d s'

  connected_Later :
      (s : Backend T P K W) (r : Io K) (w : W)
      → net.now s.world ≤ net.now w
      → Steps s 0 (
          returned (elim r as (λ x. Io (Unit {0}) × Backend T P K W) [
            | err ↦ (err, record s { world = w })
            | ok k ↦ (ok tt, record s { writer = some k; world = w })
          ]))
  connected_Later s err w l = (err, record s { world = w }, refl, (omega (arith, l), refl))
  connected_Later s (ok k) w l =
      (ok tt, record s { writer = some k; world = w }, refl, (omega (arith, l), refl))

  reinit-Later : (s : Backend T P K W) → Steps s 0 (reinit net s)
  unfolding reinit
  reinit-Later s =
      let (r, w, e, l) = connect_later s.server s.timeout s.world in rw e (connected_Later s r w l)

  wrote_Later :
      (k : K) (msg : List ℕ) (s : Backend T P K W) (r : Io (Unit {0})) (w : W)
      → s.writer ≡ some k
      → net.write_all k msg s.world ≡ some (r, w)
      → net.now s.world ≤ net.now w
      → Steps s 0 (try_write net msg s)
  unfolding try_write
  wrote_Later k msg s (ok u) w h e l = (true, record s { world = w }, cc, (omega (arith, l), refl))
  wrote_Later k msg s err w h e l =
      (false, record s { writer = none; world = w }, cc, (omega (arith, l), refl))

  try_write-Later : (msg : List ℕ) (s : Backend T P K W) → Steps s 0 (try_write net msg s)
  unfolding try_write
  try_write-Later msg s = elim (Option-cases s.writer) [
    | inl e ↦ (false, s, cc, (omega arith, refl))
    | inr (k, e) ↦ elim (Option-cases (net.write_all k msg s.world)) [
      | inl n ↦ absurd (responds.write_all k msg s.world n)
      | inr ((r, w), n) ↦ wrote_Later k msg s r w e n (clock.wrote k msg s.world r w n)
    ]
  ]

  written_Later :
      (msg : List ℕ) (s : Backend T P K W) (r : Io (Unit {0})) (s1 : Backend T P K W)
      → Later s 500 s1
      → Steps s 500 (elim r as (λ x. Outcome (Bool × Backend T P K W)) [
        | err ↦ returned (false, s1)
        | ok u ↦ try_write net msg s1
      ])
  written_Later msg s err s1 l = (false, s1, refl, l)
  written_Later msg s (ok u) s1 (l, e) =
      let (r, s2, run, (l2, e2)) = try_write-Later msg s1 in
      (r, s2, run, (omega (arith, l, l2), e2 ∙ e))

  try_again-Later : (msg : List ℕ) (s : Backend T P K W) → Steps s 500 (try_again net msg s)
  unfolding try_again
  try_again-Later msg s =
      let (r, s1, run, (l, e)) = reinit-Later (record s { world = net.sleep 500 s.world }) in
      rw run (written_Later msg s r s1 (omega (arith, clock.slept 500 s.world, l), e))

  retry_returns :
      (fuel start : ℕ) (msg : List ℕ) (s : Backend T P K W)
      → net.now s.world - start ≤ s.timeout
      → s.timeout < net.now s.world - start + fuel
      → start ≤ net.now s.world
      → (s' : Backend T P K W) × (retry net fuel start msg s ≡ returned s')
  unfolding retry
  retry_returns zero start msg s h k l = absurd (omega (arith, h, k))
  retry_returns (suc fuel) start msg s h k l =
      let (written, s1, run, (later, same)) = try_again-Later msg s in
      elim (Bool-cases written) [
        | inl e ↦ (s1, ground (arith, run, e))
        | inr e ↦ elim (Bool-cases (ltb s1.timeout (net.now s1.world - start))) [
          | inl b ↦ (s1, ground (arith, run, e, b))
          | inr b ↦
              let (s2, r) =
                retry_returns fuel start msg s1 (ground (arith, b)) (omega (arith, later, same, k))
                  (omega (arith, later, l)) in
              (s2, ground (arith, run, e, b, r))
        ]
      ]

  -- Where connecting to a Unix stream and writing come back, with success or an error (`Responds`), the
  -- clock does not go back and a sleep takes its time (`Clock`): a write returns, also if every call
  -- fails.
  pub write_returns :
      (msg : List ℕ) (s : Backend T P K W)
      → (s' : Backend T P K W) × (write net msg s ≡ returned s')
  unfolding write
  write_returns msg s =
      let (written, s1, run, later) = try_write-Later msg s in
      elim (Bool-cases written) [
        | inl e ↦ (s1, ground (arith, run, e))
        | inr e ↦
            let (s2, r) =
              retry_returns (suc (enough net s1.timeout)) (net.now s1.world) msg s1 (omega arith)
                (omega arith) (omega arith) in
            (s2, ground (arith, run, e, r))
      ]
