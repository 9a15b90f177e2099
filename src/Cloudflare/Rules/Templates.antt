-- ===== src/Cloudflare/Rules/Templates.antt =====
-- The rule templates that internal/cloudflare/rules.go comes with.
use runixo_agent.Prelude.{true, false, List, [], ◌∷◌, Text, codes, utf8, Dict}
use Prim.Native.String.{String}
use runixo_agent.Prelude.Int.{pos}
use runixo_agent.Cloudflare.Rules.{RuleCond, SecurityRule}

pub record RuleTemplate : Type 0 where
  pub id : Text
  pub name : Text
  pub description : Text
  pub category : Text
  pub rule : SecurityRule

abbrev pub cond : String → String → String → RuleCond
cond field operator value = record {
  field = codes field;
  operator = codes operator;
  value = codes value;
}

abbrev pub ssh_brute_force : RuleTemplate
ssh_brute_force = record {
  id = codes "ssh_brute_force";
  name = utf8 "SSH 暴力破解防护";
  description = utf8 "检测并封禁 SSH 暴力破解尝试";
  category = codes "brute_force";
  rule = record {
    id = [];
    name = utf8 "SSH 暴力破解防护";
    description = utf8 "5分钟内5次失败登录尝试将被封禁1小时";
    rule_type = codes "auto_block";
    enabled = true;
    priority = pos 100;
    conditions = cond "threat_type" "eq" "brute_force" ∷ cond "score" "gte" "100" ∷ [];
    action = record {
      action_type = codes "block";
      duration = pos 3600;
      message = codes "SSH brute force detected";
    };
    created_at = 0;
    updated_at = 0;
  };
}

abbrev pub web_scanner : RuleTemplate
web_scanner = record {
  id = codes "web_scanner";
  name = utf8 "Web 扫描器防护";
  description = utf8 "检测并封禁恶意 Web 扫描器";
  category = codes "scanning";
  rule = record {
    id = [];
    name = utf8 "Web 扫描器防护";
    description = utf8 "检测到扫描行为将被封禁";
    rule_type = codes "auto_block";
    enabled = true;
    priority = pos 90;
    conditions = cond "threat_type" "eq" "scanning" ∷ cond "score" "gte" "50" ∷ [];
    action = record {
      action_type = codes "block";
      duration = pos 1800;
      message = codes "Web scanning detected";
    };
    created_at = 0;
    updated_at = 0;
  };
}

abbrev pub sql_injection : RuleTemplate
sql_injection = record {
  id = codes "sql_injection";
  name = utf8 "SQL 注入防护";
  description = utf8 "检测并封禁 SQL 注入尝试";
  category = codes "injection";
  rule = record {
    id = [];
    name = utf8 "SQL 注入防护";
    description = utf8 "检测到 SQL 注入尝试将被立即封禁";
    rule_type = codes "auto_block";
    enabled = true;
    priority = pos 100;
    conditions = cond "threat_type" "eq" "sql_injection" ∷ [];
    action = record {
      action_type = codes "block";
      duration = pos 86400;
      message = codes "SQL injection attempt detected";
    };
    created_at = 0;
    updated_at = 0;
  };
}

abbrev pub xss_attack : RuleTemplate
xss_attack = record {
  id = codes "xss_attack";
  name = utf8 "XSS 攻击防护";
  description = utf8 "检测并封禁 XSS 攻击尝试";
  category = codes "injection";
  rule = record {
    id = [];
    name = utf8 "XSS 攻击防护";
    description = utf8 "检测到 XSS 攻击尝试将被封禁";
    rule_type = codes "auto_block";
    enabled = true;
    priority = pos 95;
    conditions = cond "threat_type" "eq" "xss" ∷ [];
    action = record {
      action_type = codes "block";
      duration = pos 43200;
      message = codes "XSS attack attempt detected";
    };
    created_at = 0;
    updated_at = 0;
  };
}

abbrev pub path_traversal : RuleTemplate
path_traversal = record {
  id = codes "path_traversal";
  name = utf8 "路径遍历防护";
  description = utf8 "检测并封禁路径遍历攻击";
  category = codes "injection";
  rule = record {
    id = [];
    name = utf8 "路径遍历防护";
    description = utf8 "检测到路径遍历攻击将被封禁";
    rule_type = codes "auto_block";
    enabled = true;
    priority = pos 95;
    conditions = cond "threat_type" "eq" "path_traversal" ∷ [];
    action = record {
      action_type = codes "block";
      duration = pos 43200;
      message = codes "Path traversal attempt detected";
    };
    created_at = 0;
    updated_at = 0;
  };
}

abbrev pub malicious_bot : RuleTemplate
malicious_bot = record {
  id = codes "malicious_bot";
  name = utf8 "恶意爬虫防护";
  description = utf8 "检测并封禁恶意爬虫和扫描工具";
  category = codes "bot";
  rule = record {
    id = [];
    name = utf8 "恶意爬虫防护";
    description = utf8 "检测到恶意爬虫将被封禁";
    rule_type = codes "auto_block";
    enabled = true;
    priority = pos 80;
    conditions = cond "threat_type" "eq" "bot_abuse" ∷ [];
    action = record {
      action_type = codes "block";
      duration = pos 86400;
      message = codes "Malicious bot detected";
    };
    created_at = 0;
    updated_at = 0;
  };
}

abbrev pub rate_limit_general : RuleTemplate
rate_limit_general = record {
  id = codes "rate_limit_general";
  name = utf8 "通用速率限制";
  description = utf8 "限制单个 IP 的请求频率";
  category = codes "rate_limit";
  rule = record {
    id = [];
    name = utf8 "通用速率限制";
    description = utf8 "单个 IP 每分钟最多 100 次请求";
    rule_type = codes "rate_limit";
    enabled = false;
    priority = pos 50;
    conditions = cond "requests_per_minute" "gt" "100" ∷ [];
    action = record {
      action_type = codes "challenge";
      duration = pos 300;
      message = codes "Rate limit exceeded";
    };
    created_at = 0;
    updated_at = 0;
  };
}

abbrev pub templates : Dict RuleTemplate
templates =
    (codes "ssh_brute_force", ssh_brute_force)
    ∷ (codes "web_scanner", web_scanner)
    ∷ (codes "sql_injection", sql_injection)
    ∷ (codes "xss_attack", xss_attack)
    ∷ (codes "path_traversal", path_traversal)
    ∷ (codes "malicious_bot", malicious_bot)
    ∷ (codes "rate_limit_general", rate_limit_general)
    ∷ []

-- The templates that a first start makes rules of.
abbrev pub default_templates : List Text
default_templates =
    codes "ssh_brute_force"
    ∷ codes "web_scanner"
    ∷ codes "sql_injection"
    ∷ codes "xss_attack"
    ∷ codes "path_traversal"
    ∷ codes "malicious_bot"
    ∷ []
