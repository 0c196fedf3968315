-- ===== src/Syslog/Tests.antt =====
-- A server that takes what it is sent, and one that cannot be reached.
use captains_log.Base.{
  Bool-cases, inl, inr, ℕ, ◌+◌, ◌≡◌, refl, List, [], ◌∷◌, ◌++◌, none, some, Bool, false, returned,
  ◌>>=◌, leb, arith, if◌then◌else◌,
}
use captains_log.Methods.{ok, err}
use captains_log.Syslog.{
  Net, refused, tcp_server, Backend, line, flush_request, lines, flush_first, write, turn, run,
}
use captains_log.Syslog.Timeout.{Responds, Clock, write_returns}
use captains_log.Syslog.Delivery.{Works, bytes_of, requests_of, messages_of, messages, run_delivers}
use captains_log.Syslog.Batch.{line_after_request}
use captains_log.Sinks.{Records}
use captains_log.Syslog.{Syslog, process_name, new}
use captains_log.Syslog.Front.{
  Level, error_level, warn_level, info_level, debug_level, trace_level, Formatter3164, SyslogFormat,
  LogSinkSyslog, new_sink, syslog_flush,
}
use captains_log.Syslog.Front.Delivery.{
  code_of, local_host, given_process, syslog_log_all, formatted, formatted_lines,
  syslog_log_all-delivered,
}

record Server : Type 0 where
  buffered : List ℕ
  arrived : List ℕ
  clock : ℕ
  reachable : Bool

-- One address, one connection; texts, paths and the rest are numbers.
abbrev server : Net ℕ ℕ ℕ ℕ Server
server = record {
  unix_paths = 1 ∷ 2 ∷ [];
  local_tcp = 3;
  connect_datagram = λ p w. (refused, w);
  connect_stream = λ p w. some (err, w);
  to_socket_addrs = λ t w. (ok (t ∷ []), w);
  connect_timeout =
      λ a d w. if w.reachable then (ok 0, w) else (err, record w { clock = w.clock + d });
  bind_udp = λ t a w. (ok 0, w);
  write_all = λ k msg w.
      if w.reachable
      then some (ok tt, record w { buffered = w.buffered ++ msg })
      else some (err, w);
  flush = λ k w. (ok tt, record w { arrived = w.buffered });
  now = λ w. w.clock;
  sleep = λ d w. record w { clock = w.clock + d };
}

server-Responds : Responds server
server-Responds = record {
  stream = λ p w e. cc;
  write_all = λ k msg w e. elim (Bool-cases w.reachable) [ inl b ↦ cc | inr b ↦ cc ];
}

server-Clock : Clock server
server-Clock = record {
  datagram = λ p w. omega arith;
  stream = λ p w r w' e. ground arith;
  addrs = λ t w. omega arith;
  tcp = λ a d w. ground arith;
  udp = λ t a w. omega arith;
  wrote = λ k msg w r w' e. ground arith;
  slept = λ d w. omega arith;
}

abbrev unreachable : Backend ℕ ℕ ℕ Server
unreachable = record {
  server = some (tcp_server 4);
  writer = none;
  timeout = 5000;
  answered = [];
  world = record { buffered = []; arrived = []; clock = 100; reachable = false };
}

write_returns_example :
    (s' : Backend ℕ ℕ ℕ Server) × (write server (1 ∷ 2 ∷ []) unreachable ≡ returned s')
write_returns_example = write_returns server server-Responds server-Clock (1 ∷ 2 ∷ []) unreachable

abbrev reliable : Net ℕ ℕ ℕ ℕ Server
reliable = record server {
  write_all = λ k msg w. some (ok tt, record w { buffered = w.buffered ++ msg });
}

abbrev buffered : Server → List ℕ
buffered w = w.buffered

abbrev arrived : Server → List ℕ
arrived w = w.arrived

reliable-Works : Works reliable 0 buffered arrived
reliable-Works = record {
  writes = λ msg w. (record w { buffered = w.buffered ++ msg }, refl, refl);
  flushes = λ w. refl;
  same = λ w. refl;
  delivers = λ w. refl;
}

abbrev connected_to : Backend ℕ ℕ ℕ Server
connected_to = record unreachable { writer = some 0 }

run_delivers_example :
    (s' : Backend ℕ ℕ ℕ Server) × (run reliable
        (lines (1 ∷ []) (flush_request 7 ∷ line (2 ∷ []) ∷ []) ∷ flush_first 8 ∷ [])
        connected_to
      ≡ returned s')
    × (buffered s'.world ≡ 1 ∷ 2 ∷ [])
    × (s'.answered ≡ 7 ∷ 8 ∷ [])
    × (arrived s'.world ≡ buffered s'.world)
unfolding bytes_of requests_of messages_of messages
run_delivers_example =
    run_delivers reliable 0 buffered arrived reliable-Works
      (lines (1 ∷ []) (flush_request 7 ∷ line (2 ∷ []) ∷ []) ∷ flush_first 8 ∷ []) connected_to refl

line_after_request_example :
    turn reliable (lines (1 ∷ []) (flush_request 7 ∷ line (2 ∷ []) ∷ [])) connected_to ≡ (
      turn reliable (lines (1 ∷ []) (flush_request 7 ∷ [])) connected_to
      >>= write reliable (2 ∷ []))
line_after_request_example = line_after_request reliable (1 ∷ []) [] 7 (2 ∷ []) connected_to

-- The records are their levels, the message is the level's number, and the line has the process's name
-- and the severity in front of it.
abbrev rank : Level → ℕ
rank error_level = 1
rank warn_level = 2
rank info_level = 3
rank debug_level = 4
rank trace_level = 5

abbrev level_records : Records Level Level
level_records = record {
  level = λ r. r;
  within = λ a b. leb (rank a) (rank b);
  file_name = λ r. none;
  line_number = λ r. none;
}

abbrev short : SyslogFormat Level ℕ ℕ
short = record {
  format = λ f severity msg. ok (f.process ∷ code_of severity ∷ msg);
  args = λ r. rank r ∷ [];
}

abbrev short_text : Formatter3164 ℕ ℕ → ℕ → List ℕ → List ℕ
short_text f code msg = f.process ∷ code ∷ msg

abbrev default_format : Formatter3164 ℕ ℕ
default_format = record { facility = 1; hostname = some 2; process = 9; pid = 40 }

abbrev named : Syslog ℕ Level ℕ ℕ
unfolding process_name new
named = process_name 8 (new 1 info_level)

syslog_log_all-delivered_example :
    (sink : LogSinkSyslog ℕ ℕ) × (s' : Backend ℕ ℕ ℕ Server) × (syslog_log_all level_records short
        (new_sink default_format named)
        (error_level ∷ trace_level ∷ info_level ∷ [])
      ≡ returned sink)
    × ((syslog_flush 5 sink).sent
        ≡ line (8 ∷ 3 ∷ 1 ∷ []) ∷ line (8 ∷ 6 ∷ 3 ∷ []) ∷ flush_request 5 ∷ [])
    × (run reliable
          (lines (8 ∷ 3 ∷ 1 ∷ []) (line (8 ∷ 6 ∷ 3 ∷ []) ∷ []) ∷ flush_first 5 ∷ [])
          connected_to
        ≡ returned s')
    × (arrived s'.world ≡ 8 ∷ 3 ∷ 1 ∷ 8 ∷ 6 ∷ 3 ∷ [])
    × (s'.answered ≡ 5 ∷ [])
unfolding messages messages_of formatted_lines formatted new process_name
syslog_log_all-delivered_example =
    syslog_log_all-delivered level_records short short_text reliable 0 buffered arrived
      (λ f l msg. refl) reliable-Works default_format named
      (record { facility = 1; hostname = none; process = 8; pid = 40 })
      (error_level ∷ trace_level ∷ info_level ∷ []) 5
      (lines (8 ∷ 3 ∷ 1 ∷ []) (line (8 ∷ 6 ∷ 3 ∷ []) ∷ []) ∷ flush_first 5 ∷ []) connected_to
      (record {
        facility_is = refl;
        hostname_is = local_host refl;
        process_is = given_process 8 refl;
        pid_is = refl;
      })
      refl refl
