-- ===== src/Syslog.antt =====
-- src/syslog.rs: the configuration of a syslog sink, and the thread behind its channel, which connects
-- to the server and writes to it. Texts and paths are parameters, the sockets enter by `Net`, and times
-- are in milliseconds.
pub mod Delivery
pub mod Timeout
pub mod Batch
pub mod Front
mod Tests
use captains_log.Base.{
  ℕ, zero, suc, ◌+◌, ◌-◌, List, [], ◌∷◌, ◌++◌, Option, none, some, Bool, true, false, Outcome,
  returned, out_of_fuel, ◌>>=◌, ltb, if◌then◌else◌,
}
use captains_log.Methods.{Io, ok, err}

pub data SyslogAddr (T P : Type 0) : Type 0 where
  tcp_server : T → SyslogAddr T P
  udp_server : T → T → SyslogAddr T P
  unix_server : P → SyslogAddr T P

-- The protocol has one value and is left out.
pub record Syslog (F L T P : Type 0) : Type 0 where
  pub facility : F
  pub process : Option T
  pub hostname : Option T
  pub level : L
  pub server : Option (SyslogAddr T P)
  pub timeout : ℕ

abbrev pub timeout_default : ℕ
timeout_default = 5_000

module _ {F L T P : Type 0} where
  -- `default`, given the facility and the level that it names, and `new`.
  unfoldable pub new : F → L → Syslog F L T P
  new facility level = record {
    facility = facility;
    process = none;
    hostname = none;
    level = level;
    server = none;
    timeout = timeout_default;
  }

  unfoldable pub tcp : T → Syslog F L T P → Syslog F L T P
  tcp remote s = record s { server = some (tcp_server remote) }

  unfoldable pub udp : T → T → Syslog F L T P → Syslog F L T P
  udp from remote s = record s { server = some (udp_server from remote) }

  unfoldable pub timeout : ℕ → Syslog F L T P → Syslog F L T P
  timeout d s = record s { timeout = d }

  unfoldable pub hostname : T → Syslog F L T P → Syslog F L T P
  hostname name s = record s { hostname = some name }

  unfoldable pub process_name : T → Syslog F L T P → Syslog F L T P
  process_name name s = record s { process = some name }

  unfoldable pub unix : P → Syslog F L T P → Syslog F L T P
  unix path s = record s { server = some (unix_server path) }

-- What connecting a datagram socket comes to; the wrong type of socket is told apart.
pub data Datagram (K : Type 0) : Type 0 where
  connected : K → Datagram K
  wrong_type refused : Datagram K

-- Addresses `A` and connections `K` of the standard library and the syslog crate. Connecting to a Unix
-- stream and writing may wait for the server for ever: then there is no result.
pub record Net (T P A K W : Type 0) : Type 0 where
  pub unix_paths : List P
  pub local_tcp : T
  pub connect_datagram : P → W → Datagram K × W
  pub connect_stream : P → W → Option (Io K × W)
  pub to_socket_addrs : T → W → Io (List A) × W
  pub connect_timeout : A → ℕ → W → Io K × W
  pub bind_udp : T → A → W → Io K × W
  pub write_all : K → List ℕ → W → Option (Io (Unit {0}) × W)
  pub flush : K → W → Io (Unit {0}) × W
  pub now : W → ℕ
  pub sleep : ℕ → W → W

-- A call that never comes back gives no result, whatever the fuel.
abbrev pub waits : {A : Type 0} → Option A → Outcome A
waits none = out_of_fuel
waits (some a) = returned a

-- The backend, the flush requests that were answered, and the world.
pub record Backend (T P K W : Type 0) : Type 0 where
  pub server : Option (SyslogAddr T P)
  pub writer : Option K
  pub timeout : ℕ
  pub answered : List ℕ
  pub world : W

pub data Msg : Type 0 where
  line : List ℕ → Msg
  flush_request : ℕ → Msg

-- What `recv` delivers: a line, with the messages that `try_recv` finds after it, or a flush request.
pub data Turn : Type 0 where
  lines : List ℕ → List Msg → Turn
  flush_first : ℕ → Turn

module _ {T P A K W : Type 0} (net : Net T P A K W) where
  unfoldable pub connect_unix : P → W → Outcome (Io K × W)
  connect_unix path w =
      let (r, w1) = net.connect_datagram path w in
      elim r [
        | connected k ↦ returned (ok k, w1)
        | wrong_type ↦ waits (net.connect_stream path w1)
        | refused ↦ returned (err, w1)
      ]

  -- Only the first address is tried.
  unfoldable pub connect_tcp : T → ℕ → W → Io K × W
  connect_tcp s timeout w =
      let (r, w1) = net.to_socket_addrs s w in
      elim r [
        | err ↦ (err, w1)
        | ok addrs ↦ elim addrs [ [] ↦ (err, w1) | a ∷ others ↦ net.connect_timeout a timeout w1 ]
      ]

  unfoldable pub connect_udp : T → T → W → Io K × W
  connect_udp from remote w =
      let (r, w1) = net.to_socket_addrs remote w in
      elim r [
        | err ↦ (err, w1)
        | ok addrs ↦ elim addrs [ [] ↦ (err, w1) | a ∷ others ↦ net.bind_udp from a w1 ]
      ]

  unfoldable pub connect_local : List P → ℕ → W → Outcome (Io K × W)
  unfolding connect_unix connect_tcp
  connect_local [] timeout w = returned (connect_tcp net.local_tcp timeout w)
  connect_local (p ∷ ps) timeout w = connect_unix p w >>= λ (r, w1). elim r [
    | ok k ↦ returned (ok k, w1)
    | err ↦ connect_local ps timeout w1
  ]

  unfoldable pub connect : Option (SyslogAddr T P) → ℕ → W → Outcome (Io K × W)
  unfolding connect_unix connect_tcp connect_udp connect_local
  connect none timeout w = connect_local net.unix_paths timeout w
  connect (some (unix_server p)) timeout w = connect_unix p w
  connect (some (udp_server from remote)) timeout w = returned (connect_udp from remote w)
  connect (some (tcp_server remote)) timeout w = returned (connect_tcp remote timeout w)

  -- An error leaves the writer as it is.
  unfoldable pub reinit : Backend T P K W → Outcome (Io (Unit {0}) × Backend T P K W)
  unfolding connect
  reinit s = connect s.server s.timeout s.world >>= λ (r, w). returned (elim r [
    | err ↦ (err, record s { world = w })
    | ok k ↦ (ok tt, record s { writer = some k; world = w })
  ])

  -- The backend of a new sink, which tries to connect at once.
  unfoldable pub new_backend : {F L : Type 0} → Syslog F L T P → W → Outcome (Backend T P K W)
  unfolding reinit
  new_backend config w =
      let timeout : ℕ = elim config.timeout [ zero ↦ timeout_default | suc n ↦ suc n ] in
      reinit (record {
        server = config.server;
        writer = none;
        timeout = timeout;
        answered = [];
        world = w;
      })
      >>= λ (r, s). returned s

  unfoldable pub flush : Backend T P K W → Backend T P K W
  flush s = elim s.writer [
    | none ↦ s
    | some k ↦
        let (r, w) = net.flush k s.world in
        elim r [ ok u ↦ record s { world = w } | err ↦ record s { writer = none; world = w } ]
  ]

  -- Writing to the connection, if there is one; a connection that fails is given up.
  unfoldable pub try_write : List ℕ → Backend T P K W → Outcome (Bool × Backend T P K W)
  try_write msg s = elim s.writer [
    | none ↦ returned (false, s)
    | some k ↦ waits (net.write_all k msg s.world) >>= λ (r, w). returned (elim r [
      | ok u ↦ (true, record s { world = w })
      | err ↦ (false, record s { writer = none; world = w })
    ])
  ]

  -- Connecting again, and writing where that succeeds.
  unfoldable pub try_again : List ℕ → Backend T P K W → Outcome (Bool × Backend T P K W)
  unfolding reinit try_write
  try_again msg s = reinit (record s { world = net.sleep 500 s.world }) >>= λ (r, s1). elim r [
    | err ↦ returned (false, s1)
    | ok u ↦ try_write msg s1
  ]

  -- Connecting again and again, until the message is written or the time is over. A message that is
  -- not written is dropped.
  unfoldable pub retry : ℕ → ℕ → List ℕ → Backend T P K W → Outcome (Backend T P K W)
  unfolding try_again
  retry zero start msg s = out_of_fuel
  retry (suc fuel) start msg s = try_again msg s >>= λ (written, s1).
      let rest = retry fuel start msg s1 in
      if written
      then returned s1
      else if ltb s1.timeout (net.now s1.world - start)
      then returned s1
      else rest

  -- Each turn of the loop takes 500 ms.
  abbrev pub enough : ℕ → ℕ
  enough timeout = 1 + timeout

  unfoldable pub write : List ℕ → Backend T P K W → Outcome (Backend T P K W)
  unfolding try_write retry
  write msg s = try_write msg s >>= λ (written, s1).
      if written then returned s1 else retry (suc (enough s1.timeout)) (net.now s1.world) msg s1

  -- The flush, and `call_once`, which wakes the thread that asked for it.
  unfoldable pub answer : ℕ → Backend T P K W → Backend T P K W
  unfolding flush
  answer id s = let s1 = flush s in record s1 { answered = s1.answered ++ id ∷ [] }

  -- The messages that are there without waiting; the result says whether a flush is still needed.
  unfoldable pub drain : Bool → List Msg → Backend T P K W → Outcome (Bool × Backend T P K W)
  unfolding answer write
  drain need_flush [] s = returned (need_flush, s)
  drain need_flush (line msg ∷ ms) s = write msg s >>= λ s1. drain need_flush ms s1
  drain need_flush (flush_request id ∷ ms) s = drain false ms (answer id s)

  -- A flush request that comes first leaves those after it to the next turn.
  unfoldable pub turn : Turn → Backend T P K W → Outcome (Backend T P K W)
  unfolding flush answer write drain
  turn (lines msg ms) s = write msg s >>= λ s1.
      drain true ms s1 >>= λ (need_flush, s2). returned (if need_flush then flush s2 else s2)
  turn (flush_first id) s = returned (answer id s)

  -- The turns until the channel is disconnected, and the last flush.
  unfoldable pub run : List Turn → Backend T P K W → Outcome (Backend T P K W)
  unfolding flush turn
  run [] s = returned (flush s)
  run (t ∷ turns) s = turn t s >>= λ s1. run turns s1
