-- ===== src/Wolk/Callbacks.antt =====
-- The two ways in which the application gives a callback: an object that the library refers to weakly,
-- or a lambda (the members m_actuationHandler and m_actuationHandlerLambda of src/Wolk.h, and so on).
use wolk_connect_cpp.Base.{Bool, ◌||◌, Option, none, some, is_some}

pub record Callback (F : Type 0) : Type 0 where
  -- What `lock()` of the weak pointer gives: `none` before it is set and once the object is gone.
  pub object : Option F
  pub lambda : Option F

module _ {F : Type 0} where
  abbrev pub unset : Callback F
  unset = record { object = none; lambda = none }

  -- `none` is a null pointer or an object that is gone, and an empty function.
  abbrev pub of_object : Option F → Callback F
  of_object f = record { object = f; lambda = none }

  abbrev pub of_lambda : Option F → Callback F
  of_lambda f = record { object = none; lambda = f }

  -- The object if it is there, else the lambda.
  abbrev pub chosen : Callback F → Option F
  chosen c = elim c.object [ some f ↦ some f | none ↦ c.lambda ]

  abbrev pub is_set : Callback F → Bool
  is_set c = is_some c.object || is_some c.lambda
