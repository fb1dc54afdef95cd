-- ===== src/Messages/Classes/Requests.antt =====
-- The classes of requests: android_keymaster_messages.h.
use platform_system_keymaste.Common.{ℕ}
use platform_system_keymaste.Messages.Classes.{MessageClass}
use platform_system_keymaste.Messages.{Platform}
use platform_system_keymaste.Messages.SupportedByAlgorithmRequest
use platform_system_keymaste.Messages.SupportedByAlgorithmRequest.{SupportedByAlgorithmRequest}
use platform_system_keymaste.Messages.SupportedByAlgorithmAndPurposeRequest
use platform_system_keymaste.Messages.SupportedByAlgorithmAndPurposeRequest.{
  SupportedByAlgorithmAndPurposeRequest,
}
use platform_system_keymaste.Messages.GenerateKeyRequest
use platform_system_keymaste.Messages.GenerateKeyRequest.{GenerateKeyRequest}
use platform_system_keymaste.Messages.GetKeyCharacteristicsRequest
use platform_system_keymaste.Messages.GetKeyCharacteristicsRequest.{GetKeyCharacteristicsRequest}
use platform_system_keymaste.Messages.BeginOperationRequest
use platform_system_keymaste.Messages.BeginOperationRequest.{BeginOperationRequest}
use platform_system_keymaste.Messages.UpdateOperationRequest
use platform_system_keymaste.Messages.UpdateOperationRequest.{UpdateOperationRequest}
use platform_system_keymaste.Messages.FinishOperationRequest
use platform_system_keymaste.Messages.FinishOperationRequest.{FinishOperationRequest}
use platform_system_keymaste.Messages.AbortOperationRequest
use platform_system_keymaste.Messages.AbortOperationRequest.{AbortOperationRequest}
use platform_system_keymaste.Messages.AddEntropyRequest
use platform_system_keymaste.Messages.AddEntropyRequest.{AddEntropyRequest}
use platform_system_keymaste.Messages.ImportKeyRequest
use platform_system_keymaste.Messages.ImportKeyRequest.{ImportKeyRequest}
use platform_system_keymaste.Messages.ExportKeyRequest
use platform_system_keymaste.Messages.ExportKeyRequest.{ExportKeyRequest}
use platform_system_keymaste.Messages.DeleteKeyRequest
use platform_system_keymaste.Messages.DeleteKeyRequest.{DeleteKeyRequest}
use platform_system_keymaste.Messages.AttestKeyRequest
use platform_system_keymaste.Messages.AttestKeyRequest.{AttestKeyRequest}
use platform_system_keymaste.Messages.UpgradeKeyRequest
use platform_system_keymaste.Messages.UpgradeKeyRequest.{UpgradeKeyRequest}
use platform_system_keymaste.Messages.ConfigureRequest
use platform_system_keymaste.Messages.ConfigureRequest.{ConfigureRequest}

module _ (platform : Platform) (version : ℕ) where
  unfoldable pub supported_by_algorithm_request_class : MessageClass platform
  supported_by_algorithm_request_class = record {
    Message = SupportedByAlgorithmRequest;
    serialized_size = SupportedByAlgorithmRequest.serialized_size;
    serialize = SupportedByAlgorithmRequest.serialize;
    deserialize = λ old. SupportedByAlgorithmRequest.deserialize;
    Fits = SupportedByAlgorithmRequest.Fits platform;
    Same = λ old. SupportedByAlgorithmRequest.Same;
    carries = λ m old r h. SupportedByAlgorithmRequest.serialize-Carries platform m r h;
    advances = λ old. SupportedByAlgorithmRequest.deserialize-Advances;
  }

  unfoldable pub supported_by_algorithm_and_purpose_request_class : MessageClass platform
  supported_by_algorithm_and_purpose_request_class = record {
    Message = SupportedByAlgorithmAndPurposeRequest;
    serialized_size = SupportedByAlgorithmAndPurposeRequest.serialized_size;
    serialize = SupportedByAlgorithmAndPurposeRequest.serialize;
    deserialize = λ old. SupportedByAlgorithmAndPurposeRequest.deserialize;
    Fits = SupportedByAlgorithmAndPurposeRequest.Fits platform;
    Same = λ old. SupportedByAlgorithmAndPurposeRequest.Same;
    carries = λ m old r h. SupportedByAlgorithmAndPurposeRequest.serialize-Carries platform m r h;
    advances = λ old. SupportedByAlgorithmAndPurposeRequest.deserialize-Advances;
  }

  unfoldable pub generate_key_request_class : MessageClass platform
  generate_key_request_class = record {
    Message = GenerateKeyRequest;
    serialized_size = GenerateKeyRequest.serialized_size;
    serialize = GenerateKeyRequest.serialize platform;
    deserialize = λ old. GenerateKeyRequest.deserialize platform;
    Fits = GenerateKeyRequest.Fits platform;
    Same = λ old. GenerateKeyRequest.Same;
    carries = λ m old r h. GenerateKeyRequest.serialize-Carries platform m r h;
    advances = λ old. GenerateKeyRequest.deserialize-Advances platform;
  }

  unfoldable pub get_key_characteristics_request_class : MessageClass platform
  get_key_characteristics_request_class = record {
    Message = GetKeyCharacteristicsRequest;
    serialized_size = GetKeyCharacteristicsRequest.serialized_size;
    serialize = GetKeyCharacteristicsRequest.serialize platform;
    deserialize = λ old. GetKeyCharacteristicsRequest.deserialize platform;
    Fits = GetKeyCharacteristicsRequest.Fits platform;
    Same = λ old. GetKeyCharacteristicsRequest.Same;
    carries = λ m old r h. GetKeyCharacteristicsRequest.serialize-Carries platform m r h;
    advances = λ old. GetKeyCharacteristicsRequest.deserialize-Advances platform;
  }

  unfoldable pub begin_operation_request_class : MessageClass platform
  begin_operation_request_class = record {
    Message = BeginOperationRequest;
    serialized_size = BeginOperationRequest.serialized_size;
    serialize = BeginOperationRequest.serialize platform;
    deserialize = λ old. BeginOperationRequest.deserialize platform;
    Fits = BeginOperationRequest.Fits platform;
    Same = λ old. BeginOperationRequest.Same;
    carries = λ m old r h. BeginOperationRequest.serialize-Carries platform m r h;
    advances = λ old. BeginOperationRequest.deserialize-Advances platform;
  }

  unfoldable pub update_operation_request_class : MessageClass platform
  update_operation_request_class = record {
    Message = UpdateOperationRequest;
    serialized_size = UpdateOperationRequest.serialized_size version;
    serialize = UpdateOperationRequest.serialize platform version;
    deserialize = UpdateOperationRequest.deserialize platform version;
    Fits = UpdateOperationRequest.Fits platform version;
    Same = UpdateOperationRequest.Same version;
    carries = λ m old r h. UpdateOperationRequest.serialize-Carries platform version old m r h;
    advances = λ old. UpdateOperationRequest.deserialize-Advances platform version old;
  }

  unfoldable pub finish_operation_request_class : MessageClass platform
  finish_operation_request_class = record {
    Message = FinishOperationRequest;
    serialized_size = FinishOperationRequest.serialized_size version;
    serialize = FinishOperationRequest.serialize platform version;
    deserialize = FinishOperationRequest.deserialize platform version;
    Fits = FinishOperationRequest.Fits platform version;
    Same = FinishOperationRequest.Same version;
    carries = λ m old r h. FinishOperationRequest.serialize-Carries platform version old m r h;
    advances = λ old. FinishOperationRequest.deserialize-Advances platform version old;
  }

  unfoldable pub abort_operation_request_class : MessageClass platform
  abort_operation_request_class = record {
    Message = AbortOperationRequest;
    serialized_size = AbortOperationRequest.serialized_size;
    serialize = AbortOperationRequest.serialize;
    deserialize = λ old. AbortOperationRequest.deserialize;
    Fits = AbortOperationRequest.Fits platform;
    Same = λ old. AbortOperationRequest.Same;
    carries = λ m old r h. AbortOperationRequest.serialize-Carries platform m r h;
    advances = λ old. AbortOperationRequest.deserialize-Advances;
  }

  unfoldable pub add_entropy_request_class : MessageClass platform
  add_entropy_request_class = record {
    Message = AddEntropyRequest;
    serialized_size = AddEntropyRequest.serialized_size;
    serialize = AddEntropyRequest.serialize;
    deserialize = λ old. AddEntropyRequest.deserialize platform;
    Fits = AddEntropyRequest.Fits platform;
    Same = λ old. AddEntropyRequest.Same;
    carries = λ m old r h. AddEntropyRequest.serialize-Carries platform m r h;
    advances = λ old. AddEntropyRequest.deserialize-Advances platform;
  }

  unfoldable pub import_key_request_class : MessageClass platform
  import_key_request_class = record {
    Message = ImportKeyRequest;
    serialized_size = ImportKeyRequest.serialized_size;
    serialize = ImportKeyRequest.serialize platform;
    deserialize = λ old. ImportKeyRequest.deserialize platform;
    Fits = ImportKeyRequest.Fits platform;
    Same = λ old. ImportKeyRequest.Same;
    carries = λ m old r h. ImportKeyRequest.serialize-Carries platform m r h;
    advances = λ old. ImportKeyRequest.deserialize-Advances platform;
  }

  unfoldable pub export_key_request_class : MessageClass platform
  export_key_request_class = record {
    Message = ExportKeyRequest;
    serialized_size = ExportKeyRequest.serialized_size;
    serialize = ExportKeyRequest.serialize platform;
    deserialize = λ old. ExportKeyRequest.deserialize platform;
    Fits = ExportKeyRequest.Fits platform;
    Same = λ old. ExportKeyRequest.Same;
    carries = λ m old r h. ExportKeyRequest.serialize-Carries platform m r h;
    advances = λ old. ExportKeyRequest.deserialize-Advances platform;
  }

  unfoldable pub delete_key_request_class : MessageClass platform
  delete_key_request_class = record {
    Message = DeleteKeyRequest;
    serialized_size = DeleteKeyRequest.serialized_size;
    serialize = DeleteKeyRequest.serialize;
    deserialize = λ old. DeleteKeyRequest.deserialize platform;
    Fits = DeleteKeyRequest.Fits platform;
    Same = λ old. DeleteKeyRequest.Same;
    carries = λ m old r h. DeleteKeyRequest.serialize-Carries platform m r h;
    advances = λ old. DeleteKeyRequest.deserialize-Advances platform;
  }

  unfoldable pub attest_key_request_class : MessageClass platform
  attest_key_request_class = record {
    Message = AttestKeyRequest;
    serialized_size = AttestKeyRequest.serialized_size;
    serialize = AttestKeyRequest.serialize platform;
    deserialize = λ old. AttestKeyRequest.deserialize platform;
    Fits = AttestKeyRequest.Fits platform;
    Same = λ old. AttestKeyRequest.Same;
    carries = λ m old r h. AttestKeyRequest.serialize-Carries platform m r h;
    advances = λ old. AttestKeyRequest.deserialize-Advances platform;
  }

  unfoldable pub upgrade_key_request_class : MessageClass platform
  upgrade_key_request_class = record {
    Message = UpgradeKeyRequest;
    serialized_size = UpgradeKeyRequest.serialized_size;
    serialize = UpgradeKeyRequest.serialize platform;
    deserialize = λ old. UpgradeKeyRequest.deserialize platform;
    Fits = UpgradeKeyRequest.Fits platform;
    Same = λ old. UpgradeKeyRequest.Same;
    carries = λ m old r h. UpgradeKeyRequest.serialize-Carries platform m r h;
    advances = λ old. UpgradeKeyRequest.deserialize-Advances platform;
  }

  unfoldable pub configure_request_class : MessageClass platform
  configure_request_class = record {
    Message = ConfigureRequest;
    serialized_size = ConfigureRequest.serialized_size;
    serialize = ConfigureRequest.serialize;
    deserialize = λ old. ConfigureRequest.deserialize;
    Fits = ConfigureRequest.Fits platform;
    Same = λ old. ConfigureRequest.Same;
    carries = λ m old r h. ConfigureRequest.serialize-Carries platform m r h;
    advances = λ old. ConfigureRequest.deserialize-Advances;
  }
