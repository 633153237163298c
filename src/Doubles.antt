-- ===== src/Doubles.antt =====
-- The type `double` and its operations, which the model takes as a parameter: the results below
-- hold for whatever they compute. `atof` and the casts are among them.
use apgitproj.Base.{Bool, ℤ, Text}

pub record Doubles : Type 1 where
  pub Double : Type 0
  pub zero_d : Double
  pub of_int : ℤ → Double
  pub to_int : Double → ℤ
  pub atof : Text → Double
  pub plus : Double → Double → Double
  pub minus : Double → Double → Double
  pub times : Double → Double → Double
  pub divide : Double → Double → Double
  pub eq_d : Double → Double → Bool
  pub lt_d : Double → Double → Bool
  pub le_d : Double → Double → Bool
