-- ===== src/StateFile/Pieces.antt =====
-- What the writers of the state files share: `SCHEMA`, `optional_string`, and the loop over the entries.
-- What is written is put in front of what follows it.
use whirl.Prelude.{ℕ, zero, suc, List, [], ◌∷◌, ◌++◌, Option, none, some, Text, codes}
use whirl.Json.Write.{string_into}

abbrev pub schema : ℕ
schema = 1

unfoldable pub optional_string_into : Option Text → Text → Text
unfolding string_into
optional_string_into none rest = codes "null" ++ rest
optional_string_into (some s) rest = string_into s rest

-- A comma in front of every entry but the first.
abbrev pub comma_before : ℕ → Text
comma_before zero = []
comma_before (suc index) = codes ","

unfoldable pub entries_into {ℓ} : {A : Type ℓ} → (A → Text → Text) → ℕ → List A → Text → Text
entries_into one index [] rest = rest
entries_into one index (e ∷ es) rest =
    comma_before index ++ one e (entries_into one (suc index) es rest)

abbrev pub closing {ℓ} : {A : Type ℓ} → List A → Text
closing [] = codes "]\n}\n"
closing (e ∷ es) = codes "\n  ]\n}\n"
