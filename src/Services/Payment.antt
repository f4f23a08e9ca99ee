-- ===== src/Services/Payment.antt =====
-- src/services/payment_service.py: the simulated payment provider.
use text.Mathlib.Text.{◌==◌ as str_eq}
use inventory_reservation_or.Prelude.{String, Bool, true, false, if◌then◌else◌}
use inventory_reservation_or.Models.{PaymentResult}

abbrev pub token_fail_permanent : String
token_fail_permanent = "fail"

abbrev pub token_fail_retryable : String
token_fail_retryable = "fail_retryable"

pub record PaymentOutcome : Type 0 where
  pub result : PaymentResult
  pub retryable : Bool
  pub message : String

unfoldable pub charge : String → PaymentOutcome
charge payment_token =
    if str_eq payment_token token_fail_permanent
    then record {
      result = PaymentResult.failed;
      retryable = false;
      message = "Simulated payment declined";
    }
    else if str_eq payment_token token_fail_retryable
    then record {
      result = PaymentResult.failed;
      retryable = true;
      message = "Simulated transient payment provider error";
    }
    else record {
      result = PaymentResult.success;
      retryable = false;
      message = "Simulated payment approved";
    }
