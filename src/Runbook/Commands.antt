-- ===== src/Runbook/Commands.antt =====
-- services/runbook/catalog.go: the commands of the catalog, and the steps made of them.
use vps_manager.Base.{ℕ, ◌*◌, List, [], ◌∷◌, ◌++◌, pos, second, Text, Table, codes}
use vps_manager.Runbook.{Phase, preflight, evidence, apply, verify, Step}

abbrev pub seconds : ℕ → ℕ
seconds n = n * second

abbrev pub new_step : Text → Phase → Text → Text → ℕ → Step
new_step id phase description command timeout = record {
  id = id;
  phase = phase;
  description = description;
  command = command;
  timeout = pos timeout;
  seal = [];
}

unfoldable pub privilege_preflight : Text → Text
privilege_preflight tool =
    codes "LC_ALL=C command -v "
    ++ tool
    ++ codes " >/dev/null; command -v sudo >/dev/null; sudo -n true"

unfoldable pub capabilities_command : Text
capabilities_command =
    codes "LC_ALL=C\nprintf 'init\\t'; "
    ++ codes "if command -v systemctl >/dev/null; then printf 'systemd\\n'; "
    ++ codes "else printf 'unknown\\n'; fi\n"
    ++ codes "for tool in sudo systemctl timedatectl shutdown apt apt-get dnf yum apk; "
    ++ codes
        "do if command -v \"$tool\" >/dev/null; then printf 'tool\\t%s\\n' \"$tool\"; fi; done\n"
    ++ codes "printf 'timezone\\t'; "
    ++ codes "(timedatectl show --property=Timezone --value 2>/dev/null || date +%Z)"

unfoldable pub update_check_command : Text
update_check_command =
    codes "LC_ALL=C\n"
    ++ codes "if command -v apt >/dev/null; then apt list --upgradable 2>/dev/null || true\n"
    ++ codes "elif command -v dnf >/dev/null; then "
    ++ codes "dnf --cacheonly --quiet check-update 2>/dev/null || test \"$?\" -eq 100\n"
    ++ codes "elif command -v yum >/dev/null; then "
    ++ codes "yum --cacheonly --quiet check-update 2>/dev/null || test \"$?\" -eq 100\n"
    ++ codes "elif command -v apk >/dev/null; then apk version -l '<' 2>/dev/null\n"
    ++ codes "else printf 'unsupported package manager\\n'; exit 3; fi"

unfoldable pub status_command : Text → Text
status_command unit =
    codes "LC_ALL=C systemctl show --no-pager "
    ++ codes "--property=Id,Description,LoadState,ActiveState,SubState,UnitFileState,MainPID "
    ++ unit

unfoldable pub service_status_commands : Table Text
service_status_commands =
    (codes "nginx", status_command (codes "nginx.service"))
    ∷ (codes "ssh", status_command (codes "ssh.service"))
    ∷ (codes "docker", status_command (codes "docker.service"))
    ∷ (codes "cron", status_command (codes "cron.service"))
    ∷ []

pub record CommandPair : Type 0 where
  pub evidence_command : Text
  pub apply_command : Text
  pub verify_command : Text

unfoldable pub restart_commands : Text → CommandPair
restart_commands unit = record {
  evidence_command = status_command unit;
  apply_command = codes "LC_ALL=C sudo -n systemctl restart " ++ unit;
  verify_command =
      codes "LC_ALL=C systemctl is-active --quiet "
      ++ unit
      ++ codes "; systemctl show --no-pager --property=ActiveState,SubState,MainPID "
      ++ unit;
}

unfoldable pub service_restart_commands : Table CommandPair
service_restart_commands =
    (codes "nginx", restart_commands (codes "nginx.service"))
    ∷ (codes "ssh", restart_commands (codes "ssh.service"))
    ∷ (codes "docker", restart_commands (codes "docker.service"))
    ∷ (codes "cron", restart_commands (codes "cron.service"))
    ∷ []

unfoldable pub set_timezone_commands : Text → CommandPair
set_timezone_commands zone = record {
  evidence_command = [];
  apply_command = codes "LC_ALL=C sudo -n timedatectl set-timezone " ++ zone;
  verify_command =
      codes "LC_ALL=C test \"$(timedatectl show --property=Timezone --value)\" = '"
      ++ zone
      ++ codes "'";
}

unfoldable pub timezone_commands : Table CommandPair
timezone_commands =
    (codes "UTC", set_timezone_commands (codes "UTC"))
    ∷ (codes "Asia/Shanghai", set_timezone_commands (codes "Asia/Shanghai"))
    ∷ (codes "America/New_York", set_timezone_commands (codes "America/New_York"))
    ∷ (codes "Europe/London", set_timezone_commands (codes "Europe/London"))
    ∷ []

unfoldable pub read_only_steps : Text → Text → Text → List Step
read_only_steps prefix description evidence_command =
    new_step (prefix ++ codes "-preflight") preflight (codes "check basic POSIX host capability")
      (codes "LC_ALL=C id -u; uname -sr") (seconds 10)
    ∷ new_step (prefix ++ codes "-evidence") evidence description evidence_command (seconds 60)
    ∷ []

unfoldable pub mutating_steps : Text → CommandPair → List Step
mutating_steps prefix commands =
    new_step (prefix ++ codes "-preflight") preflight
      (codes "check systemctl and non-interactive sudo") (privilege_preflight (codes "systemctl"))
      (seconds 10)
    ∷ new_step (prefix ++ codes "-evidence") evidence
        (codes "record the current approved service state") commands.evidence_command (seconds 10)
    ∷ new_step (prefix ++ codes "-apply") apply (codes "apply the approved service restart once")
        commands.apply_command (seconds 20)
    ∷ new_step (prefix ++ codes "-verify") verify (codes "verify the approved service is active")
        commands.verify_command (seconds 15)
    ∷ []

unfoldable pub timezone_steps : CommandPair → List Step
timezone_steps commands =
    new_step (codes "timezone-preflight") preflight
      (codes "check timedatectl and non-interactive sudo")
      (privilege_preflight (codes "timedatectl")) (seconds 10)
    ∷ new_step (codes "timezone-evidence") evidence (codes "record the current timezone")
        (codes "LC_ALL=C timedatectl show --property=Timezone --value") (seconds 10)
    ∷ new_step (codes "timezone-apply") apply (codes "set the approved timezone")
        commands.apply_command (seconds 15)
    ∷ new_step (codes "timezone-verify") verify (codes "verify the selected timezone")
        commands.verify_command (seconds 10)
    ∷ []

-- awk '{print $22}' /proc/<pid>/stat
abbrev pub start_ticks_of : Text → Text
start_ticks_of pid = codes "$(awk '{print $22}' /proc/" ++ pid ++ codes "/stat"

unfoldable pub process_steps : Text → Text → List Step
process_steps pid ticks =
    new_step (codes "process-preflight") preflight
      (codes "reject reserved, self, kernel-thread, and stale process targets")
      (codes "LC_ALL=C; test "
        ++ pid
        ++ codes " -ne 1; test "
        ++ pid
        ++ codes " -ne \"$$\"; test "
        ++ pid
        ++ codes " -ne \"$PPID\"; test -e /proc/"
        ++ pid
        ++ codes "/exe; test \""
        ++ start_ticks_of pid
        ++ codes ")\" = \""
        ++ ticks
        ++ codes "\"; command -v sudo >/dev/null")
      (seconds 10)
    ∷ new_step (codes "process-evidence") evidence (codes "record non-secret process identity")
        (codes "LC_ALL=C ps -p " ++ pid ++ codes " -o pid=,ppid=,user=,stat=,etimes=,comm=")
        (seconds 10)
    ∷ new_step (codes "process-apply") apply
        (codes "send SIGTERM once to the bound process instance")
        (codes "LC_ALL=C; test \""
          ++ start_ticks_of pid
          ++ codes " 2>/dev/null)\" = \""
          ++ ticks
          ++ codes "\"; sudo -n kill -TERM -- "
          ++ pid)
        (seconds 10)
    ∷ new_step (codes "process-verify") verify (codes "verify the original process instance exited")
        (codes "LC_ALL=C; current="
          ++ start_ticks_of pid
          ++ codes " 2>/dev/null || true); test \"$current\" != \""
          ++ ticks
          ++ codes "\"")
        (seconds 15)
    ∷ []

unfoldable pub reboot_steps : List Step
reboot_steps =
    new_step (codes "reboot-preflight") preflight (codes "check shutdown and non-interactive sudo")
      (privilege_preflight (codes "shutdown")) (seconds 10)
    ∷ new_step (codes "reboot-evidence") evidence (codes "record uptime and logged-in sessions")
        (codes "LC_ALL=C uptime; who") (seconds 10)
    ∷ new_step (codes "reboot-apply") apply (codes "schedule a reboot in one minute")
        (codes "LC_ALL=C sudo -n shutdown -r +1 'vpsmanager approved reboot'") (seconds 10)
    ∷ new_step (codes "reboot-verify") verify (codes "verify a shutdown is scheduled")
        (codes "LC_ALL=C shutdown --show") (seconds 10)
    ∷ []
