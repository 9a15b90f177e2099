-- ===== src/Security/Config.antt =====
-- The configuration of internal/security/security.go. Its integers are taken to be no less than 0.
use runixo_agent.Prelude.{ℕ, Bool, true, false, Option, none, some, List, [], ◌∷◌, Text, codes}

pub record SecurityConfig : Type 0 where
  pub enable_command_whitelist : Bool
  pub command_whitelist : List Text
  pub dangerous_commands : List Text
  pub allow_sudo : Bool
  pub allowed_paths : List Text
  pub forbidden_paths : List Text
  pub max_command_length : ℕ
  pub max_arguments : ℕ

abbrev pub default_security_config : SecurityConfig
default_security_config = record {
  enable_command_whitelist = true;
  command_whitelist =
      codes "uname"
      ∷ codes "hostname"
      ∷ codes "uptime"
      ∷ codes "whoami"
      ∷ codes "id"
      ∷ codes "date"
      ∷ codes "cal"
      ∷ codes "ls"
      ∷ codes "cat"
      ∷ codes "head"
      ∷ codes "tail"
      ∷ codes "less"
      ∷ codes "more"
      ∷ codes "file"
      ∷ codes "stat"
      ∷ codes "wc"
      ∷ codes "du"
      ∷ codes "df"
      ∷ codes "find"
      ∷ codes "locate"
      ∷ codes "which"
      ∷ codes "whereis"
      ∷ codes "readlink"
      ∷ codes "grep"
      ∷ codes "awk"
      ∷ codes "sed"
      ∷ codes "cut"
      ∷ codes "sort"
      ∷ codes "uniq"
      ∷ codes "tr"
      ∷ codes "diff"
      ∷ codes "comm"
      ∷ codes "ping"
      ∷ codes "traceroute"
      ∷ codes "nslookup"
      ∷ codes "dig"
      ∷ codes "host"
      ∷ codes "netstat"
      ∷ codes "ss"
      ∷ codes "ip"
      ∷ codes "ifconfig"
      ∷ codes "curl"
      ∷ codes "wget"
      ∷ codes "ps"
      ∷ codes "top"
      ∷ codes "htop"
      ∷ codes "pgrep"
      ∷ codes "pidof"
      ∷ codes "lsof"
      ∷ codes "systemctl"
      ∷ codes "service"
      ∷ codes "journalctl"
      ∷ codes "docker"
      ∷ codes "docker-compose"
      ∷ codes "apt"
      ∷ codes "apt-get"
      ∷ codes "yum"
      ∷ codes "dnf"
      ∷ codes "pacman"
      ∷ codes "rpm"
      ∷ codes "dpkg"
      ∷ codes "echo"
      ∷ codes "printf"
      ∷ codes "env"
      ∷ codes "printenv"
      ∷ codes "free"
      ∷ codes "vmstat"
      ∷ codes "iostat"
      ∷ codes "tar"
      ∷ codes "gzip"
      ∷ codes "gunzip"
      ∷ codes "zip"
      ∷ codes "unzip"
      ∷ codes "xz"
      ∷ codes "mkdir"
      ∷ codes "cp"
      ∷ codes "mv"
      ∷ codes "touch"
      ∷ codes "ssh-keygen"
      ∷ codes "openssl"
      ∷ codes "git"
      ∷ codes "npm"
      ∷ codes "node"
      ∷ codes "npx"
      ∷ codes "yarn"
      ∷ codes "pnpm"
      ∷ codes "python"
      ∷ codes "python3"
      ∷ codes "pip"
      ∷ codes "pip3"
      ∷ codes "nginx"
      ∷ codes "mysql"
      ∷ codes "psql"
      ∷ codes "redis-cli"
      ∷ codes "redis-server"
      ∷ codes "mongo"
      ∷ codes "mongod"
      ∷ codes "go"
      ∷ codes "java"
      ∷ codes "php"
      ∷ codes "composer"
      ∷ codes "tee"
      ∷ codes "ln"
      ∷ codes "test"
      ∷ codes "true"
      ∷ codes "false"
      ∷ codes "sleep"
      ∷ [];
  dangerous_commands =
      codes "rm -rf /"
      ∷ codes "rm -rf /*"
      ∷ codes "rm -rf ~"
      ∷ codes "mkfs"
      ∷ codes "fdisk"
      ∷ codes "parted"
      ∷ codes "dd if=/dev/zero"
      ∷ codes ":(){ :|:& };:"
      ∷ codes "chmod 777 /"
      ∷ codes "chown -R /"
      ∷ codes "nmap -sS"
      ∷ codes "hping3"
      ∷ codes "slowloris"
      ∷ codes "> /dev/sda"
      ∷ codes "mv /* /dev/null"
      ∷ [];
  allow_sudo = false;
  allowed_paths =
      codes "/home" ∷ codes "/var" ∷ codes "/tmp" ∷ codes "/opt" ∷ codes "/etc" ∷ codes "/usr" ∷ [];
  forbidden_paths =
      codes "/etc/shadow"
      ∷ codes "/etc/sudoers"
      ∷ codes "/etc/passwd"
      ∷ codes "/root/.ssh"
      ∷ codes "/proc"
      ∷ codes "/sys"
      ∷ [];
  max_command_length = 50000;
  max_arguments = 200;
}

-- What both constructors of the validators do: without a configuration they take the default.
abbrev pub config_or_default : Option SecurityConfig → SecurityConfig
config_or_default none = default_security_config
config_or_default (some config) = config
