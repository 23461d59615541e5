-- ===== src/Policy/Categories.antt =====
-- panel/components/policy/categories-editor.tsx: the built-in catalog.
use leakshield.Base.{String, List, [], ◌∷◌, map}
use leakshield.Onboarding.Categories.{Severity, allow, mask, block}

pub record BuiltInCategory : Type 0 where
  pub name : String
  pub description : String
  pub severity : Severity

-- `BUILT_IN`
unfoldable pub built_in : List BuiltInCategory
built_in =
    record { name = "PII.NAME"; description = "Proper-name detection."; severity = mask }
    ∷ record { name = "PII.EMAIL"; description = "RFC 5322 emails."; severity = mask }
    ∷ record {
      name = "PII.PHONE";
      description = "International + Turkish GSM formats.";
      severity = mask;
    }
    ∷ record {
      name = "PII.TC_KIMLIK";
      description = "Turkish national ID with checksum.";
      severity = block;
    }
    ∷ record { name = "PII.IBAN"; description = "IBAN with MOD-97 validation."; severity = mask }
    ∷ record { name = "PII.PASSPORT"; description = "Common passport formats."; severity = mask }
    ∷ record { name = "PII.DOB"; description = "Dates of birth."; severity = mask }
    ∷ record {
      name = "PII.ADDRESS";
      description = "Street addresses (heuristic).";
      severity = mask;
    }
    ∷ record {
      name = "FINANCIAL.CREDIT_CARD";
      description = "Luhn-validated card numbers.";
      severity = block;
    }
    ∷ record {
      name = "FINANCIAL.AMOUNT_TL";
      description = "Turkish lira above threshold.";
      severity = allow;
    }
    ∷ record { name = "CREDENTIAL.OPENAI_KEY"; description = "sk-… keys."; severity = block }
    ∷ record { name = "CREDENTIAL.ANTHROPIC_KEY"; description = "sk-ant-… keys."; severity = block }
    ∷ record {
      name = "CREDENTIAL.AWS_ACCESS_KEY";
      description = "AKIA… patterns.";
      severity = block;
    }
    ∷ record { name = "CREDENTIAL.PRIVATE_KEY"; description = "PEM headers."; severity = block }
    ∷ record {
      name = "CODE.SECRET_IN_SOURCE";
      description = "Source-code blocks containing the above.";
      severity = block;
    }
    ∷ []

-- `SeverityBadge`, which chooses as the one of the wizard's fourth step does.
unfoldable pub severity_variant : Severity → String
severity_variant block = "destructive"
severity_variant mask = "warning"
severity_variant allow = "secondary"

pub record CategoryRow : Type 0 where
  pub name : String
  pub description : String
  pub variant : String
  pub badge : Severity

unfoldable pub category_row : BuiltInCategory → CategoryRow
unfolding severity_variant
category_row c = record {
  name = c.name;
  description = c.description;
  variant = severity_variant c.severity;
  badge = c.severity;
}

-- The rows of the table; the button for a custom category has no handler.
unfoldable pub category_rows : List CategoryRow
unfolding category_row
category_rows = map category_row built_in
