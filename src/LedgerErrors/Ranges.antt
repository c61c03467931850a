-- ===== src/LedgerErrors/Ranges.antt =====
-- The ranges of the codes of ledger errors.
use midnight_node.Prelude.{
  ℕ, ◌≡◌, refl, some, List, [], ◌∷◌, ◌==◌, ltb, leb, Bool, true, ◌&&◌, ◌||◌, arith,
}
use midnight_node.LedgerErrors.{
  LedgerApiError, deserialization, serialization, transaction, host_api_error, transaction_code,
  code,
}
use midnight_node.LedgerErrors.Deserialization
use midnight_node.LedgerErrors.Deserialization.{DeserializationError}
use midnight_node.LedgerErrors.Serialization
use midnight_node.LedgerErrors.Serialization.{SerializationError}
use midnight_node.LedgerErrors.Invalid
use midnight_node.LedgerErrors.Invalid.{InvalidError}
use midnight_node.LedgerErrors.Malformed
use midnight_node.LedgerErrors.Malformed.{MalformedError}
use midnight_node.LedgerErrors.SystemTransaction
use midnight_node.LedgerErrors.SystemTransaction.{SystemTransactionError}
use midnight_node.LedgerErrors.Codes.{all_errors, find, error_of, error_of-code}

-- The codes of a kind of error.
abbrev pub in_range : LedgerApiError → ℕ → Bool
in_range (deserialization e) n = ltb n 50
in_range (serialization e) n = leb 50 n && ltb n 100
in_range (transaction e) n = leb 100 n && ltb n 150 || leb 166 n && ltb n 211
in_range host_api_error n = n == 255
in_range e n = leb 150 n && ltb n 166

abbrev all_in_range : List LedgerApiError → Bool
all_in_range [] = true
all_in_range (e ∷ es) = in_range e (code e) && all_in_range es

find-in_range :
    (n : ℕ) (es : List LedgerApiError) (e : LedgerApiError)
    → all_in_range es ≡ true
    → find n es ≡ some e
    → in_range e (code e) ≡ true
unfolding find
find-in_range n [] e h k = ground arith
find-in_range n (x ∷ xs) e h k = ground (arith, find-in_range n xs e)

all_errors_in_range : all_in_range all_errors ≡ true
unfolding code Deserialization.code Serialization.code transaction_code Invalid.code Malformed.code
    SystemTransaction.code
all_errors_in_range = refl

-- The codes of deserialization errors are below 50, of serialization errors from 50 to 99, of
-- transaction errors from 100 to 149 and from 166 to 210, that of `HostApiError` is 255, and the
-- others are from 150 to 165.
pub code-in_range : (e : LedgerApiError) → in_range e (code e) ≡ true
unfolding error_of
code-in_range e = find-in_range (code e) all_errors e all_errors_in_range (error_of-code e)
