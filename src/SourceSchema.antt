-- ===== src/SourceSchema.antt =====
-- services/common/pkg/sourceschema/schema.go: the documents from which a form for a source is built,
-- and their announcement.
pub mod Agree
mod Tests
use ice_hive.Prelude.{Bool, true, false, List, [], ◌∷◌, ◌++◌, Option, none, some, Result, ok, err}
use ice_hive.Text.{Bytes, codes}
use ice_hive.Amqp.Names.{source_schema_key}
use ice_hive.Amqp.Broker.{Broker}
use ice_hive.Amqp.Client.{Client, Error, Outcome, publish_json}

abbrev pub schema_kind : Bytes
schema_kind = codes "SourceSchema"

-- A text that is left out of the JSON when it is empty is empty here.
pub record Arg : Type 0 where
  pub id : Bytes
  pub label : Bytes
  pub format : Bytes

pub record PrimaryPattern : Type 0 where
  pub id : Bytes
  pub syntax_prefix : Bytes
  pub label : Bytes
  pub value_template : Bytes
  pub example : Bytes
  pub args : List Arg

pub record Modifier : Type 0 where
  pub id : Bytes
  pub label : Bytes
  pub kind : Bytes
  pub syntax_suffix : Bytes

pub record CronHint : Type 0 where
  pub description : Bytes
  pub optional : Bool

pub record Document : Type 0 where
  pub cron : Option CronHint
  pub kind : Bytes
  pub schema_version : Bytes
  pub collector_type : Bytes
  pub primary_patterns : List PrimaryPattern
  pub modifiers : List Modifier

-- A modifier whose token is its id
abbrev boolean : Bytes → Bytes → Modifier
boolean id label = record { id = id; label = label; kind = codes "boolean"; syntax_suffix = id }

-- GitHubV1
abbrev pub github_v1 : Document
github_v1 = record {
  cron = some (record {
    description = codes "Leave empty for run-now-only sources (no scheduled polling).";
    optional = true;
  });
  kind = schema_kind;
  schema_version = codes "1";
  collector_type = codes "collector-github";
  primary_patterns =
      (record {
        id = codes "repo";
        syntax_prefix = codes "repo:";
        label = codes "Single repository";
        value_template = codes "repo:{owner}/{name}";
        example = codes "repo:jamesread/faridoon";
        args =
            record { id = codes "owner"; label = codes "Owner"; format = codes "github_login" }
            ∷ record {
              id = codes "name";
              label = codes "Repository name";
              format = codes "github_repo";
            }
            ∷ [];
      })
      ∷ (record {
        id = codes "org.repos";
        syntax_prefix = codes "org.repos:";
        label = codes "All repositories under user or organization";
        value_template = codes "org.repos:{login}";
        example = codes "org.repos:jamesread";
        args =
            record {
              id = codes "login";
              label = codes "User or organization";
              format = codes "github_login";
            }
            ∷ [];
      })
      ∷ [];
  modifiers =
      boolean (codes "dependabot") (codes "Dependabot alerts")
      ∷ boolean (codes "pr") (codes "Pull requests (open + closed, non-archived repos)")
      ∷ boolean (codes "issue") (codes "Issues (open + closed, non-archived repos)")
      ∷ boolean (codes "packages") (codes "GitHub Packages (type, name, latest version)")
      ∷ [];
}

-- TestdataV1
abbrev pub testdata_v1 : Document
testdata_v1 = record {
  cron = some (record {
    description = codes "Cron is not used by collector-testdata; emit interval is separate.";
    optional = false;
  });
  kind = schema_kind;
  schema_version = codes "1";
  collector_type = codes "collector-testdata";
  primary_patterns = [];
  modifiers = [];
}

-- AzureV1
abbrev pub azure_v1 : Document
azure_v1 = record {
  cron = some (record { description = []; optional = true });
  kind = schema_kind;
  schema_version = codes "1";
  collector_type = codes "collector-azure";
  primary_patterns = [];
  modifiers = [];
}

-- ImapV1
abbrev pub imap_v1 : Document
imap_v1 = record {
  cron = some (record {
    description =
        codes
          "IMAP inbox is polled on poll_interval_seconds from YAML; controller cron is optional for future scheduling.";
    optional = true;
  });
  kind = schema_kind;
  schema_version = codes "1";
  collector_type = codes "collector-imap";
  primary_patterns = [];
  modifiers = [];
}

-- RssV1
abbrev pub rss_v1 : Document
rss_v1 = record {
  cron = some (record {
    description = codes "Leave empty for run-now-only sources (no scheduled polling).";
    optional = true;
  });
  kind = schema_kind;
  schema_version = codes "1";
  collector_type = codes "collector-rss";
  primary_patterns =
      (record {
        id = codes "feed_url";
        syntax_prefix = codes "feed:";
        label = codes "RSS, Atom, or JSON feed URL";
        value_template = codes "feed:{url}";
        example =
            (codes
                "feed:https://hnrss.org/frontpage (25 most recent articles when YAML items_max_per_feed is unset; "
              ++ codes
                  "override count in YAML or use JSON {\"feed\":\"https://example.com/atom.xml\",\"articles_max\":50})");
        args =
            record { id = codes "url"; label = codes "Feed URL"; format = codes "https_url" } ∷ [];
      })
      ∷ [];
  modifiers = [];
}

-- JmapV1
abbrev pub jmap_v1 : Document
jmap_v1 = record {
  cron = some (record {
    description = codes "Leave empty for run-now-only sources (no scheduled polling).";
    optional = true;
  });
  kind = schema_kind;
  schema_version = codes "1";
  collector_type = codes "collector-jmap";
  primary_patterns =
      (record {
        id = codes "mailbox";
        syntax_prefix = codes "mailbox:";
        label = codes "Mailbox to list threads from";
        value_template = codes "mailbox:{id}";
        example = codes "mailbox:env, mailbox:inbox, or a concrete id";
        args =
            record { id = codes "id"; label = codes "JMAP mailbox id"; format = codes "text" } ∷ [];
      })
      ∷ (record {
        id = codes "inbox";
        syntax_prefix = codes "mailbox:";
        label = codes "Inbox (RFC 8621 mailbox role)";
        value_template = codes "mailbox:inbox";
        example = codes "mailbox:inbox";
        args = [];
      })
      ∷ [];
  modifiers = [];
}

module _ (b : Broker) where
  announced : b.World → Client b → Document → Result (Error b) Bytes → Outcome b
  announced w c doc (err e) = record { world = w; client = c; error = some e }
  announced w c doc (ok body) = publish_json b w c (source_schema_key doc.collector_type) body

  -- Publish, with what Marshal makes of the document; a client and a document that are nil are errors
  -- and not modelled.
  unfoldable pub publish :
      (Document → Result (Error b) Bytes) → b.World → Client b → Document → Outcome b
  unfolding announced
  publish marshal w c doc = announced w c doc (marshal doc)
