-- ===== src/Device.antt =====
-- src/model/Device.h and Device.cpp: a device is its key, its password and the template that the
-- SDK's DetailedDevice keeps.
use wolk_connect_cpp.Base.{String, List, [], ◌∷◌, ◌++◌, ◌≡◌, ◌∙◌, sym, ap}
use mathlib.Core.List.{append_assoc, append-nil}

-- model/DetailedDevice.h and DeviceTemplate.h of the SDK, as far as the device uses them.
pub record Templates : Type 1 where
  pub DeviceTemplate : Type 0
  -- DeviceTemplate{{}, {}, {}, {}, "", {}, {}, {}}
  pub blank : DeviceTemplate
  -- addActuator(ActuatorTemplate{"", reference, DataType::STRING, ""})
  pub add_actuator : DeviceTemplate → String → DeviceTemplate
  -- The references of the actuators, which DetailedDevice::getActuatorReferences lists.
  pub actuator_references : DeviceTemplate → List String
  pub references-blank : actuator_references blank ≡ []
  pub references-add :
      (t : DeviceTemplate) (r : String)
      → actuator_references (add_actuator t r) ≡ actuator_references t ++ r ∷ []

module _ (templates : Templates) where
  open templates use {DeviceTemplate, blank, add_actuator, actuator_references}

  pub record Device : Type 0 where
    pub key : String
    pub password : String
    pub device_template : DeviceTemplate

  -- The loop of the constructor.
  add_actuators : DeviceTemplate → List String → DeviceTemplate
  add_actuators t [] = t
  add_actuators t (r ∷ rs) = add_actuators (add_actuator t r) rs

  -- The constructor.
  unfoldable pub device : String → String → List String → Device
  unfolding add_actuators
  device key password references = record {
    key = key;
    password = password;
    device_template = add_actuators blank references;
  }

  unfoldable pub get_actuator_references : Device → List String
  get_actuator_references d = actuator_references d.device_template

  references-add_actuators :
      (t : DeviceTemplate) (rs : List String)
      → actuator_references (add_actuators t rs) ≡ actuator_references t ++ rs
  unfolding add_actuators
  references-add_actuators t [] = sym (append-nil (actuator_references t))
  references-add_actuators t (r ∷ rs) =
      references-add_actuators (add_actuator t r) rs
      ∙ ap (λ xs. xs ++ rs) (templates.references-add t r)
      ∙ append_assoc (actuator_references t) (r ∷ []) rs

  -- A device lists the actuator references that it was made with, in their order.
  pub get_actuator_references-device :
      (key password : String) (rs : List String)
      → get_actuator_references (device key password rs) ≡ rs
  unfolding device get_actuator_references
  get_actuator_references-device key password rs =
      references-add_actuators blank rs ∙ ap (λ xs. xs ++ rs) templates.references-blank
