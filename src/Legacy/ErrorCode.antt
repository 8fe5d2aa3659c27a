-- ===== src/Legacy/ErrorCode.antt =====
-- The error codes of src/ErrorCode.hpp.
use kafka_cpp_server.Prelude.{◌-◌, ◌^◌}
use kafka_cpp_server.Protocol.Types.{Int32}

pub data ErrorCode : Type 0 where
  unknown_server_error none offset_out_of_range corrupt_message : ErrorCode
  unknown_topic_or_partition invalid_fetch_size leader_not_available not_leader_or_follower :
      ErrorCode
  request_timed_out broker_not_available replica_not_available message_too_large : ErrorCode
  stale_controller_epoch offset_metadata_too_large network_exception coordinator_load_in_progress :
      ErrorCode
  coordinator_not_available not_coordinator invalid_topic_exception record_list_too_large :
      ErrorCode
  not_enough_replicas not_enough_replicas_after_append invalid_required_acks illegal_generation :
      ErrorCode
  inconsistent_group_protocol invalid_group_id unknown_member_id invalid_session_timeout : ErrorCode
  rebalance_in_progress invalid_commit_offset_size topic_authorization_failed
        group_authorization_failed :
      ErrorCode
  cluster_authorization_failed invalid_timestamp unsupported_sasl_mechanism illegal_sasl_state :
      ErrorCode
  unsupported_version topic_already_exists invalid_partitions invalid_replication_factor : ErrorCode
  invalid_replica_assignment invalid_config not_controller invalid_request : ErrorCode
  unsupported_for_message_format policy_violation out_of_order_sequence_number
        duplicate_sequence_number :
      ErrorCode
  invalid_producer_epoch invalid_txn_state invalid_producer_id_mapping invalid_transaction_timeout :
      ErrorCode
  concurrent_transactions transaction_coordinator_fenced transactional_id_authorization_failed
        security_disabled :
      ErrorCode
  operation_not_attempted kafka_storage_error log_dir_not_found sasl_authentication_failed :
      ErrorCode
  unknown_producer_id reassignment_in_progress delegation_token_auth_disabled
        delegation_token_not_found :
      ErrorCode
  delegation_token_owner_mismatch delegation_token_request_not_allowed
        delegation_token_authorization_failed delegation_token_expired :
      ErrorCode
  invalid_principal_type non_empty_group group_id_not_found fetch_session_id_not_found : ErrorCode
  invalid_fetch_session_epoch listener_not_found topic_deletion_disabled fenced_leader_epoch :
      ErrorCode
  unknown_leader_epoch unsupported_compression_type stale_broker_epoch offset_not_available :
      ErrorCode
  member_id_required preferred_leader_not_available group_max_size_reached fenced_instance_id :
      ErrorCode
  eligible_leaders_not_available election_not_needed no_reassignment_in_progress
        group_subscribed_to_topic :
      ErrorCode
  invalid_record unstable_offset_commit throttling_quota_exceeded producer_fenced : ErrorCode
  resource_not_found duplicate_resource unacceptable_credential inconsistent_voter_set : ErrorCode
  invalid_update_version feature_update_failed principal_deserialization_failure
        snapshot_not_found :
      ErrorCode
  position_out_of_range unknown_topic_id duplicate_broker_registration broker_id_not_registered :
      ErrorCode
  inconsistent_topic_id inconsistent_cluster_id transactional_id_not_found
        fetch_session_topic_id_error :
      ErrorCode
  ineligible_replica new_leader_elected offset_moved_to_tiered_storage fenced_member_epoch :
      ErrorCode
  unreleased_instance_id unsupported_assignor stale_member_epoch mismatched_endpoint_type :
      ErrorCode
  unsupported_endpoint_type unknown_controller_id unknown_subscription_id telemetry_too_large :
      ErrorCode
  invalid_registration transaction_abortable invalid_record_state share_session_not_found :
      ErrorCode
  invalid_share_session_epoch fenced_state_epoch invalid_voter_key duplicate_voter : ErrorCode
  voter_not_found : ErrorCode

-- `std::underlying_type_t<ErrorCode>` is `int`.
unfoldable pub underlying : ErrorCode → Int32
underlying unknown_server_error = 2 ^ 32 - 1
underlying none = 0
underlying offset_out_of_range = 1
underlying corrupt_message = 2
underlying unknown_topic_or_partition = 3
underlying invalid_fetch_size = 4
underlying leader_not_available = 5
underlying not_leader_or_follower = 6
underlying request_timed_out = 7
underlying broker_not_available = 8
underlying replica_not_available = 9
underlying message_too_large = 10
underlying stale_controller_epoch = 11
underlying offset_metadata_too_large = 12
underlying network_exception = 13
underlying coordinator_load_in_progress = 14
underlying coordinator_not_available = 15
underlying not_coordinator = 16
underlying invalid_topic_exception = 17
underlying record_list_too_large = 18
underlying not_enough_replicas = 19
underlying not_enough_replicas_after_append = 20
underlying invalid_required_acks = 21
underlying illegal_generation = 22
underlying inconsistent_group_protocol = 23
underlying invalid_group_id = 24
underlying unknown_member_id = 25
underlying invalid_session_timeout = 26
underlying rebalance_in_progress = 27
underlying invalid_commit_offset_size = 28
underlying topic_authorization_failed = 29
underlying group_authorization_failed = 30
underlying cluster_authorization_failed = 31
underlying invalid_timestamp = 32
underlying unsupported_sasl_mechanism = 33
underlying illegal_sasl_state = 34
underlying unsupported_version = 35
underlying topic_already_exists = 36
underlying invalid_partitions = 37
underlying invalid_replication_factor = 38
underlying invalid_replica_assignment = 39
underlying invalid_config = 40
underlying not_controller = 41
underlying invalid_request = 42
underlying unsupported_for_message_format = 43
underlying policy_violation = 44
underlying out_of_order_sequence_number = 45
underlying duplicate_sequence_number = 46
underlying invalid_producer_epoch = 47
underlying invalid_txn_state = 48
underlying invalid_producer_id_mapping = 49
underlying invalid_transaction_timeout = 50
underlying concurrent_transactions = 51
underlying transaction_coordinator_fenced = 52
underlying transactional_id_authorization_failed = 53
underlying security_disabled = 54
underlying operation_not_attempted = 55
underlying kafka_storage_error = 56
underlying log_dir_not_found = 57
underlying sasl_authentication_failed = 58
underlying unknown_producer_id = 59
underlying reassignment_in_progress = 60
underlying delegation_token_auth_disabled = 61
underlying delegation_token_not_found = 62
underlying delegation_token_owner_mismatch = 63
underlying delegation_token_request_not_allowed = 64
underlying delegation_token_authorization_failed = 65
underlying delegation_token_expired = 66
underlying invalid_principal_type = 67
underlying non_empty_group = 68
underlying group_id_not_found = 69
underlying fetch_session_id_not_found = 70
underlying invalid_fetch_session_epoch = 71
underlying listener_not_found = 72
underlying topic_deletion_disabled = 73
underlying fenced_leader_epoch = 74
underlying unknown_leader_epoch = 75
underlying unsupported_compression_type = 76
underlying stale_broker_epoch = 77
underlying offset_not_available = 78
underlying member_id_required = 79
underlying preferred_leader_not_available = 80
underlying group_max_size_reached = 81
underlying fenced_instance_id = 82
underlying eligible_leaders_not_available = 83
underlying election_not_needed = 84
underlying no_reassignment_in_progress = 85
underlying group_subscribed_to_topic = 86
underlying invalid_record = 87
underlying unstable_offset_commit = 88
underlying throttling_quota_exceeded = 89
underlying producer_fenced = 90
underlying resource_not_found = 91
underlying duplicate_resource = 92
underlying unacceptable_credential = 93
underlying inconsistent_voter_set = 94
underlying invalid_update_version = 95
underlying feature_update_failed = 96
underlying principal_deserialization_failure = 97
underlying snapshot_not_found = 98
underlying position_out_of_range = 99
underlying unknown_topic_id = 100
underlying duplicate_broker_registration = 101
underlying broker_id_not_registered = 102
underlying inconsistent_topic_id = 103
underlying inconsistent_cluster_id = 104
underlying transactional_id_not_found = 105
underlying fetch_session_topic_id_error = 106
underlying ineligible_replica = 107
underlying new_leader_elected = 108
underlying offset_moved_to_tiered_storage = 109
underlying fenced_member_epoch = 110
underlying unreleased_instance_id = 111
underlying unsupported_assignor = 112
underlying stale_member_epoch = 113
underlying mismatched_endpoint_type = 114
underlying unsupported_endpoint_type = 115
underlying unknown_controller_id = 116
underlying unknown_subscription_id = 117
underlying telemetry_too_large = 118
underlying invalid_registration = 119
underlying transaction_abortable = 120
underlying invalid_record_state = 121
underlying share_session_not_found = 122
underlying invalid_share_session_epoch = 123
underlying fenced_state_epoch = 124
underlying invalid_voter_key = 125
underlying duplicate_voter = 126
underlying voter_not_found = 127
