-- ===== src/Messages/Classes/Responses.antt =====
-- What the classes of responses hold besides the error: android_keymaster_messages.h.
use platform_system_keymaste.Common.{ℕ}
use platform_system_keymaste.Messages.Classes.{MessageClass}
use platform_system_keymaste.Messages.{Platform}
use platform_system_keymaste.Messages.SupportedResponse
use platform_system_keymaste.Messages.SupportedResponse.{SupportedResponse}
use platform_system_keymaste.Messages.GenerateKeyResponse
use platform_system_keymaste.Messages.GenerateKeyResponse.{GenerateKeyResponse}
use platform_system_keymaste.Messages.GetKeyCharacteristicsResponse
use platform_system_keymaste.Messages.GetKeyCharacteristicsResponse.{GetKeyCharacteristicsResponse}
use platform_system_keymaste.Messages.BeginOperationResponse
use platform_system_keymaste.Messages.BeginOperationResponse.{BeginOperationResponse}
use platform_system_keymaste.Messages.UpdateOperationResponse
use platform_system_keymaste.Messages.UpdateOperationResponse.{UpdateOperationResponse}
use platform_system_keymaste.Messages.FinishOperationResponse
use platform_system_keymaste.Messages.FinishOperationResponse.{FinishOperationResponse}
use platform_system_keymaste.Messages.ImportKeyResponse
use platform_system_keymaste.Messages.ImportKeyResponse.{ImportKeyResponse}
use platform_system_keymaste.Messages.ExportKeyResponse
use platform_system_keymaste.Messages.ExportKeyResponse.{ExportKeyResponse}
use platform_system_keymaste.Messages.GetVersionResponse
use platform_system_keymaste.Messages.GetVersionResponse.{GetVersionResponse}
use platform_system_keymaste.Messages.AttestKeyResponse
use platform_system_keymaste.Messages.AttestKeyResponse.{AttestKeyResponse}
use platform_system_keymaste.Messages.UpgradeKeyResponse
use platform_system_keymaste.Messages.UpgradeKeyResponse.{UpgradeKeyResponse}

module _ (platform : Platform) (version : ℕ) where
  unfoldable pub supported_response_class : MessageClass platform
  supported_response_class = record {
    Message = SupportedResponse;
    serialized_size = SupportedResponse.serialized_size;
    serialize = SupportedResponse.serialize;
    deserialize = λ old. SupportedResponse.deserialize platform;
    Fits = SupportedResponse.Fits platform;
    Same = λ old. SupportedResponse.Same;
    carries = λ m old r h. SupportedResponse.serialize-Carries platform m r h;
    advances = λ old. SupportedResponse.deserialize-Advances platform;
  }

  unfoldable pub generate_key_response_class : MessageClass platform
  generate_key_response_class = record {
    Message = GenerateKeyResponse;
    serialized_size = GenerateKeyResponse.serialized_size;
    serialize = GenerateKeyResponse.serialize platform;
    deserialize = λ old. GenerateKeyResponse.deserialize platform;
    Fits = GenerateKeyResponse.Fits platform;
    Same = λ old. GenerateKeyResponse.Same;
    carries = λ m old r h. GenerateKeyResponse.serialize-Carries platform m r h;
    advances = λ old. GenerateKeyResponse.deserialize-Advances platform;
  }

  unfoldable pub get_key_characteristics_response_class : MessageClass platform
  get_key_characteristics_response_class = record {
    Message = GetKeyCharacteristicsResponse;
    serialized_size = GetKeyCharacteristicsResponse.serialized_size;
    serialize = GetKeyCharacteristicsResponse.serialize platform;
    deserialize = λ old. GetKeyCharacteristicsResponse.deserialize platform;
    Fits = GetKeyCharacteristicsResponse.Fits platform;
    Same = λ old. GetKeyCharacteristicsResponse.Same;
    carries = λ m old r h. GetKeyCharacteristicsResponse.serialize-Carries platform m r h;
    advances = λ old. GetKeyCharacteristicsResponse.deserialize-Advances platform;
  }

  unfoldable pub begin_operation_response_class : MessageClass platform
  begin_operation_response_class = record {
    Message = BeginOperationResponse;
    serialized_size = BeginOperationResponse.serialized_size version;
    serialize = BeginOperationResponse.serialize platform version;
    deserialize = BeginOperationResponse.deserialize platform version;
    Fits = BeginOperationResponse.Fits platform version;
    Same = BeginOperationResponse.Same version;
    carries = λ m old r h. BeginOperationResponse.serialize-Carries platform version old m r h;
    advances = λ old. BeginOperationResponse.deserialize-Advances platform version old;
  }

  unfoldable pub update_operation_response_class : MessageClass platform
  update_operation_response_class = record {
    Message = UpdateOperationResponse;
    serialized_size = UpdateOperationResponse.serialized_size version;
    serialize = UpdateOperationResponse.serialize platform version;
    deserialize = UpdateOperationResponse.deserialize platform version;
    Fits = UpdateOperationResponse.Fits platform version;
    Same = UpdateOperationResponse.Same version;
    carries = λ m old r h. UpdateOperationResponse.serialize-Carries platform version old m r h;
    advances = λ old. UpdateOperationResponse.deserialize-Advances platform version old;
  }

  unfoldable pub finish_operation_response_class : MessageClass platform
  finish_operation_response_class = record {
    Message = FinishOperationResponse;
    serialized_size = FinishOperationResponse.serialized_size version;
    serialize = FinishOperationResponse.serialize platform version;
    deserialize = FinishOperationResponse.deserialize platform version;
    Fits = FinishOperationResponse.Fits platform version;
    Same = FinishOperationResponse.Same version;
    carries = λ m old r h. FinishOperationResponse.serialize-Carries platform version old m r h;
    advances = λ old. FinishOperationResponse.deserialize-Advances platform version old;
  }

  unfoldable pub import_key_response_class : MessageClass platform
  import_key_response_class = record {
    Message = ImportKeyResponse;
    serialized_size = ImportKeyResponse.serialized_size;
    serialize = ImportKeyResponse.serialize platform;
    deserialize = λ old. ImportKeyResponse.deserialize platform;
    Fits = ImportKeyResponse.Fits platform;
    Same = λ old. ImportKeyResponse.Same;
    carries = λ m old r h. ImportKeyResponse.serialize-Carries platform m r h;
    advances = λ old. ImportKeyResponse.deserialize-Advances platform;
  }

  unfoldable pub export_key_response_class : MessageClass platform
  export_key_response_class = record {
    Message = ExportKeyResponse;
    serialized_size = ExportKeyResponse.serialized_size;
    serialize = ExportKeyResponse.serialize;
    deserialize = λ old. ExportKeyResponse.deserialize platform;
    Fits = ExportKeyResponse.Fits platform;
    Same = λ old. ExportKeyResponse.Same;
    carries = λ m old r h. ExportKeyResponse.serialize-Carries platform m r h;
    advances = λ old. ExportKeyResponse.deserialize-Advances platform;
  }

  unfoldable pub get_version_response_class : MessageClass platform
  get_version_response_class = record {
    Message = GetVersionResponse;
    serialized_size = GetVersionResponse.serialized_size;
    serialize = GetVersionResponse.serialize;
    deserialize = λ old. GetVersionResponse.deserialize;
    Fits = λ m. Unit;
    Same = λ old. GetVersionResponse.Same;
    carries = λ m old r h. GetVersionResponse.serialize-Carries m;
    advances = λ old. GetVersionResponse.deserialize-Advances;
  }

  unfoldable pub attest_key_response_class : MessageClass platform
  attest_key_response_class = record {
    Message = AttestKeyResponse;
    serialized_size = AttestKeyResponse.serialized_size;
    serialize = AttestKeyResponse.serialize;
    deserialize = λ old. AttestKeyResponse.deserialize platform;
    Fits = AttestKeyResponse.Fits platform;
    Same = λ old. AttestKeyResponse.Same;
    carries = λ m old r h. AttestKeyResponse.serialize-Carries platform m r h;
    advances = λ old. AttestKeyResponse.deserialize-Advances platform;
  }

  unfoldable pub upgrade_key_response_class : MessageClass platform
  upgrade_key_response_class = record {
    Message = UpgradeKeyResponse;
    serialized_size = UpgradeKeyResponse.serialized_size;
    serialize = UpgradeKeyResponse.serialize;
    deserialize = λ old. UpgradeKeyResponse.deserialize platform;
    Fits = UpgradeKeyResponse.Fits platform;
    Same = λ old. UpgradeKeyResponse.Same;
    carries = λ m old r h. UpgradeKeyResponse.serialize-Carries platform m r h;
    advances = λ old. UpgradeKeyResponse.deserialize-Advances platform;
  }
