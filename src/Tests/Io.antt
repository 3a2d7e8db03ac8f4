-- ===== src/Tests/Io.antt =====
-- Tests of connections.
use hpserver.Prelude.{
  ℕ, ◌+◌, ◌≡◌, refl, arith, none, some, List, [], ◌∷◌, ◌++◌, Bytes, length, codes,
}
use hpserver.Os.{Send, eagain}
use hpserver.Http.ConnectionIo.{HttpConnectionIo, Flushed, flush_to_socket}
use hpserver.Http.ConnectionIo.Conserved as Conserved
use hpserver.Http.HttpConn.{http_conn}
use hpserver.Http.HttpConn.Once as Once
use hpserver.Http.RequestParser as Parser
use hpserver.Http.RequestParser.{Event}
use hpserver.Http.Llhttp.{Llhttp, Errno, Code}

-- Two of six bytes have been sent.
abbrev half : HttpConnectionIo
half = record { fd = some 5; read_buffer = []; write_buffer = codes "abcdef"; write_offset = 2 }

abbrev outcomes : List Send
outcomes = Send.room 1 ∷ Send.refused eagain ∷ Send.room 9 ∷ Send.room 9 ∷ []

flush_to_socket-conserves_example :
    (f : Flushed) × (flush_to_socket outcomes half ≡ some f)
    × (f.out ++ Conserved.pending f.io ≡ Conserved.pending half)
    × Conserved.IsWithin f.io
    × Conserved.Counts f.result (length f.out)
flush_to_socket-conserves_example =
    Conserved.flush_to_socket-conserves outcomes half refl (omega arith) (omega arith)

abbrev pieces : List (ℕ × Bytes)
pieces = (71, codes "ET") ∷ (32, []) ∷ []

abbrev fine : Errno
fine = record { code = Code.hpe_ok; errno_name = codes "HPE_OK"; reason = none }

-- A library that finds one piece of a method in all bytes, and counts its runs.
abbrev counts : Llhttp Event
counts = record {
  Parser = ℕ;
  init = 0;
  reset = λ n. 0;
  execute = λ bytes n. (Event.url bytes ∷ [], (fine, n + 1));
  finish = λ n. ([], (fine, n));
  resume_after_upgrade = λ n. n;
}

abbrev chunks : List Bytes
chunks = codes "GE" ∷ codes "T " ∷ []

rounds-parse_chunks_example :
    Once.Agree counts
      (Once.rounds counts chunks (http_conn counts (some 5)))
      (Once.parse_chunks counts chunks Parser.blank_parser 0)
rounds-parse_chunks_example =
    Once.rounds-parse_chunks counts chunks (http_conn counts (some 5)) refl refl (refl, (refl, tt))
