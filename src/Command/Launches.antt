-- ===== src/Command/Launches.antt =====
-- What `run` of cmd/agentrun-openai/main.go has checked when it serves.
use agentrun_openai.Prelude.{
  ℤ, pos, negsuc, ℕ, ◌≡◌, ◌≢◌, ◌≤◌, subst, false, List, [], ◌∷◌, arith, All,
}
use agentrun_openai.Prelude.Text.{Text, is_empty, trim_space}
use agentrun_openai.Prelude.Distinct.{Distinct}
use agentrun_openai.Types.{Result, ok, err, bind-eq-ok}
use agentrun_openai.Backend.{AcpBackendConfig, parse_acp_backends}
use agentrun_openai.Backend.Valid.{ParsedTo, backend_ids, parse_acp_backends_iff}
use agentrun_openai.Command.Flags.{Machine, Settings, Parsed, parse_args}
use agentrun_openai.Command.Roots.{resolve_roots, IsRoot, resolve_roots_ok}
use agentrun_openai.Command.{
  Launch, serves, run_command, prepare, defaults, start_with, start_of, check_host, check_port,
  configure, configured, specs_of, choose_directory, launch,
}

-- The address is one to listen on, each root is a directory, and there are backends, with different
-- IDs, of specifications that parse.
abbrev pub IsLaunch : Machine → Launch → Type 0
IsLaunch m l =
    (is_empty (trim_space l.host) ≡ false)
    × (1 ≤ l.port)
    × (l.port ≤ 65535)
    × All (IsRoot m) l.allowed_roots
    × (l.backends ≢ [])
    × ((specs : List Text) × ParsedTo specs l.backends)
    × Distinct (backend_ids l.backends)

pub check_host_ok :
    (host found : Text) → check_host host ≡ ok found → is_empty (trim_space found) ≡ false
unfolding check_host
check_host_ok host found h = ground (arith, h)

pub check_port_ok : (n : ℤ) (found : ℕ) → check_port n ≡ ok found → (1 ≤ found) × (found ≤ 65535)
unfolding check_port
check_port_ok (negsuc n) found h = ground (arith, h)
check_port_ok (pos n) found h = ground (arith, h)

pub configured_ok :
    (r : Result (List AcpBackendConfig)) (bs : List AcpBackendConfig)
    → configured r ≡ ok bs
    → r ≡ ok bs
configured_ok (err e) bs h = ground (arith, h)
configured_ok (ok cs) bs h = h

pub ParsedTo-filled :
    (spec : Text) (specs : List Text) (bs : List AcpBackendConfig)
    → ParsedTo (spec ∷ specs) bs
    → bs ≢ []
ParsedTo-filled spec specs [] p = absurd p
ParsedTo-filled spec specs (b ∷ bs) p = λ e. cc

pub configure_ok :
    (specs : List Text) (bs : List AcpBackendConfig)
    → configure specs ≡ ok bs
    → (bs ≢ []) × ParsedTo specs bs × Distinct (backend_ids bs)
unfolding configure
configure_ok [] bs h = ground (arith, h)
configure_ok (spec ∷ specs) bs h =
    let (parsed, distinct) =
      (parse_acp_backends_iff (spec ∷ specs) bs).0
        (configured_ok (parse_acp_backends (spec ∷ specs)) bs h) in
    (ParsedTo-filled spec specs bs parsed, parsed, distinct)

pub prepare_ok : (m : Machine) (s : Settings) (l : Launch) → prepare m s ≡ ok l → IsLaunch m l
unfolding prepare
prepare_ok m s l h =
    let (host, e, h1) = bind-eq-ok (check_host s.host) _ h in
    let (port, f, h2) = bind-eq-ok (check_port s.port) _ h1 in
    let (roots, g, h3) = bind-eq-ok (resolve_roots m s.allowed_roots) _ h2 in
    let (backends, i, h4) = bind-eq-ok (configure (specs_of m s.acp)) _ h3 in
    let (cwd, j, h5) = bind-eq-ok (choose_directory m s.default_cwd) _ h4 in
    let same : launch s host port roots backends cwd ≡ l = ground (arith, h5) in
    let (filled, parsed, distinct) = configure_ok (specs_of m s.acp) backends i in
    let (low, high) = check_port_ok s.port port f in
    subst (IsLaunch m) same (
      check_host_ok s.host host e,
      low,
      high,
      (resolve_roots_ok m s.allowed_roots roots g).0,
      filled,
      (specs_of m s.acp, parsed),
      distinct,
    )

pub start_of_serves : (r : Result Launch) (l : Launch) → start_of r ≡ serves l → r ≡ ok l
start_of_serves (err e) l h = ground (arith, h)
start_of_serves (ok k) l h = ground (arith, h)

pub start_with_serves :
    (m : Machine) (p : Parsed) (l : Launch) → start_with m p ≡ serves l → IsLaunch m l
start_with_serves m Parsed.refused l h = ground (arith, h)
start_with_serves m (Parsed.accepted s) l h =
    ground (arith, start_of_serves (prepare m s) l, prepare_ok m s l)

-- When the command serves, its host is not blank and its port is from 1 to 65535, every root is a
-- directory to which an absolute path resolves, and there is a backend; the backends are what a list of
-- specifications parses to, and no two have one ID.
pub run_command_serves :
    (m : Machine) (args : List Text) (l : Launch) → run_command m args ≡ serves l → IsLaunch m l
unfolding run_command
run_command_serves m [] l h = start_with_serves m (parse_args m (defaults m) []) l h
run_command_serves m (a ∷ args) l h =
    ground (arith, start_with_serves m (parse_args m (defaults m) (a ∷ args)) l)
