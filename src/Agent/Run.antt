-- ===== src/Agent/Run.antt =====
-- `main` and `run` of cmd/networking-agent/main.go: what they print, the two controllers that they
-- start, and the loop that waits for a signal.
use Prim.Native.String.{◌++◌, len, slice}
use networking.Prelude.{
  ℕ, Bool, true, false, Option, none, some, List, [], ◌∷◌, String, Exec, Result, ok, err, fatal,
  Error, ◌>>=◌, ◌>>◌, if◌then◌else◌, ltb, ◌==◌, string_eq, ◌≡◌, arith, refl, In, inl,
}
use networking.Net.{IpNet}
use networking.Nodes.Map.{NodeMap}
use networking.Cni.{FileCalls, write_cni_config}
use networking.Controller
use networking.Controller.{Environment, State}
use networking.Agent.Options.{Options}
use networking.Agent.Choice.{Provider}
use networking.Agent.Dispatch.{beside}

-- `gitVersion`, cut to six bytes.
unfoldable pub git_version_text : String → String
git_version_text git_version =
    if git_version == ""
    then ""
    else if ltb 6 (len git_version)
    then "git-" ++ slice git_version 0 6
    else "git-" ++ git_version

-- The line that `run` prints first.
unfoldable pub banner : String → String → String
banner version git_version =
    "kopeio-networking " ++ (version ++ (" " ++ (git_version_text git_version ++ "\n")))

-- `cniWriter`: none without a path.
unfoldable pub cni_writer :
    {W : Type 0}
    → (IpNet → String)
    → (String → String → String → String)
    → FileCalls W
    → Options
    → Option (Option IpNet → Exec W Unit)
cni_writer net_text replace_all files o =
    if o.cni_config_path == ""
    then none
    else some (write_cni_config net_text replace_all files o.cni_config_path)

-- The writer in the world of the controller, which holds the provider too.
unfoldable pub writer_beside :
    {W : Type 0}
    → Option (Option IpNet → Exec W Unit)
    → Option (Option IpNet → Exec (Provider × W) Unit)
writer_beside none = none
writer_beside (some write) = some (λ pod_cidr. beside (write pod_cidr))

-- What `routing.NewController` is given: the provider, the writer and the client. The provider's
-- state is part of the world.
unfoldable pub controller_environment :
    {W : Type 0}
    → (W → Option Error × W)
    → (NodeMap → Exec (Provider × W) Unit)
    → Option (Option IpNet → Exec W Unit)
    → (String → Exec W Unit)
    → Environment (Provider × W)
controller_environment context_err ensure_provider writer mark = record {
  context_err = λ (p, w). let (x, w') = context_err w in (x, (p, w'));
  ensure_cidrs = ensure_provider;
  write_cni_config = writer_beside writer;
  set_node_condition = λ name. beside (mark name);
}

-- `run`, up to `go rc.Run(ctx)`: `print` is that to the standard output, `options` what `run` reads,
-- `set_up` what makes the node map and the provider. The controller starts with them.
unfoldable pub launch :
    {W : Type 0}
    → (String → Exec W Unit)
    → Exec W Options
    → (Options → Exec W (NodeMap × Provider))
    → String
    → String
    → W
    → Result (State (Provider × W)) × W
launch print options set_up version git_version w0 =
    (do
      print (banner version git_version)
      o ← options
      (node_map, provider) ← set_up o
      λ w. (ok (Controller.start node_map (provider, w)), w))
      w0

-- What the `select` of the loop at the end of `run` finds.
pub data Notice : Type 0 where
  -- `signalChan`, for SIGINT, SIGQUIT or SIGTERM
  got_signal : String → Notice
  -- `ctx.Done()`
  context_done : Notice

-- That loop, and whether it has called `cancel`: the process exits with the number, or the loop
-- waits for more.
unfoldable pub serve : Bool → List Notice → Option ℕ × Bool
serve cancelled [] = (none, cancelled)
serve cancelled (got_signal s ∷ rest) = serve true rest
serve cancelled (context_done ∷ rest) = (some 0, cancelled)

-- `main`: the result of `run` is an error, or the process exits in `run`.
unfoldable pub main_exit : Result ℕ → Result ℕ
main_exit (ok code) = ok code
main_exit (err x) = fatal "unexpected error"
main_exit (fatal s) = fatal s

-- The context is done only once `cancel` was called.
abbrev pub Plausible : Bool → List Notice → Type 0
Plausible cancelled [] = Unit
Plausible cancelled (got_signal s ∷ rest) = Plausible true rest
Plausible cancelled (context_done ∷ rest) = (cancelled ≡ true) × Plausible cancelled rest

serve-code :
    (notices : List Notice) (code : ℕ) (b cancelled : Bool)
    → serve b notices ≡ (some code, cancelled)
    → code ≡ 0
unfolding serve
serve-code [] code b cancelled h = absurd (cc)
serve-code (got_signal s ∷ rest) code b cancelled h = serve-code rest code true cancelled h
serve-code (context_done ∷ rest) code b cancelled h = ground (arith, h)

-- The process exits with the number 0, and only after a signal.
pub serve-signal :
    (notices : List Notice) (code : ℕ) (cancelled : Bool)
    → Plausible false notices
    → serve false notices ≡ (some code, cancelled)
    → (code ≡ 0) × (s : String) × In (got_signal s) notices
unfolding serve
serve-signal [] code cancelled p h = absurd (cc)
serve-signal (context_done ∷ rest) code cancelled p h = absurd (ground (arith, p.0))
serve-signal (got_signal s ∷ rest) code cancelled p h =
    (serve-code rest code true cancelled h, s, inl refl)
