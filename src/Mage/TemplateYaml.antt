-- ===== src/Mage/TemplateYaml.antt =====
-- services_go/observatorium/encoders.go: what the generators ask of a `templateYAML`. Its `Read`, which
-- applies the replacements to a text by regular expressions, is not modelled.
use rhobs.Base.{String, ◌<>◌, List, [], ◌∷◌, ◌++◌}
use rhobs.Mage.Value.{Fields, done}

-- `templateYAML`; a parameter is its name and its other fields.
pub record TemplateYaml : Type 0 where
  pub replacements : List (String × String)
  pub resource_name : String
  pub template_var_prefix : String
  pub params : List (String × Fields)

abbrev kind_prefix : (resource_name : String) → String
kind_prefix resource_name =
    "kind: (Deployment|StatefulSet).*? name: " <> (resource_name <> "\\n.*?")

unfoldable pub new_std_template_yaml : (resource_name template_var_prefix : String) → TemplateYaml
new_std_template_yaml resource_name template_var_prefix =
    let prefix = kind_prefix resource_name in
    record {
      replacements =
          (
            "(?s)(" <> (prefix <> "containers:\\n.*? limits:.*? memory: )(?P<value>\\S+)"),
            template_var_prefix <> "_MEMORY_LIMIT",
          )
          ∷ (
            "(?s)(" <> (prefix <> " containers:\\n.*? requests:.*? memory: )(?P<value>\\S+)"),
            template_var_prefix <> "_MEMORY_REQUEST",
          )
          ∷ (
            "(?s)(" <> (prefix <> " containers:\\n.*? requests:.*? cpu: )(?P<value>\\S+)"),
            template_var_prefix <> "_CPU_REQUEST",
          )
          ∷ (
            "(?s)(" <> (prefix <> " replicas: )(?P<value>\\S+)"),
            template_var_prefix <> "_REPLICAS",
          )
          ∷ [];
      resource_name = resource_name;
      template_var_prefix = template_var_prefix;
      params =
          (template_var_prefix <> "_MEMORY_LIMIT", done)
          ∷ (template_var_prefix <> "_MEMORY_REQUEST", done)
          ∷ (template_var_prefix <> "_CPU_REQUEST", done)
          ∷ (template_var_prefix <> "_REPLICAS", done)
          ∷ [];
    }

unfoldable pub with_log_level : TemplateYaml → TemplateYaml
with_log_level c = record c {
  replacements =
      c.replacements
      ++ ((
        "(?s)("
            <> (kind_prefix c.resource_name
                <> " containers:\\n.*?\\s+--log\\.level=)(?P<value>\\w+)"),
        c.template_var_prefix <> "_LOG_LEVEL",
      )
          ∷ []);
  params = c.params ++ ((c.template_var_prefix <> "_LOG_LEVEL", done) ∷ []);
}
