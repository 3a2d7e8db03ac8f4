-- ===== src/Tests/Main.antt =====
-- Tests of the command line.
use hpserver.Prelude.{◌≡◌, [], ◌∷◌, arith}
use hpserver.Main as Main
use hpserver.Main.Settings as S

abbrev defaults : Main.Options
defaults = record {
  port = 8080;
  proxy_workers = 0;
  tunnel_workers = 0;
  proxy_queue_size = 0;
  tunnel_queue_size = 0;
}

abbrev settings : S.Settings
settings = (S.port, 3128) ∷ (S.proxy_workers, 4) ∷ (S.port, 80) ∷ []

parse_arguments-write_all_example :
    Main.parse_arguments (S.arguments settings []) defaults
    ≡ Main.parse_arguments [] (record defaults { port = 80; proxy_workers = 4 })
parse_arguments-write_all_example =
    S.parse_arguments-write_all settings [] defaults
      (omega arith, omega arith, (omega arith, omega arith, (omega arith, omega arith, tt)))
