-- ===== src/Errors.antt =====
-- The errors of the modelled code, one constructor for each message of a `bail!`, an `anyhow!` or a
-- `context`, in the words of the message. `anyhow::Error` is one type for the whole program.
pub data Error : Type 0 where
  -- record.rs
  truncated_record_header invalid_record_version_or_flags invalid_ciphertext_length : Error
  record_plaintext_too_large record_hard_limit_reached record_encryption_failed : Error
  record_context_mismatch record_length_mismatch record_rejected_by_replay_precheck : Error
  record_authentication_failed record_replayed invalid_replay_window_width : Error
  frame_body_too_large truncated_frame_header truncated_frame_body : Error
  unsupported_critical_frame : Error
  invalid_master_secret invalid_epoch_secret : Error
  hkdf_label_context_or_output_too_large hkdf_expand_failed invalid_fixed_size_value : Error
  -- rekey.rs
  data_record_counter_overflow plaintext_byte_counter_overflow : Error
  pending_epoch_accepts_only_control_records previous_epoch_grace_expired : Error
  unknown_record_epoch : Error
  invalid_or_concurrent_key_update epoch_overflow invalid_key_update_epoch : Error
  invalid_key_update_transcript_tag invalid_key_update_commit key_update_is_not_pending : Error
  key_update_commit_epoch_mismatch routine_key_update_is_not_pending : Error
  invalid_key_update_commit_tag : Error
  invalid_or_concurrent_full_rekey invalid_full_rekey_epoch : Error
  invalid_full_rekey_client_signature all_zero_full_rekey_shared_secret : Error
  invalid_full_rekey_confirmation full_rekey_is_not_pending : Error
  full_rekey_confirmation_epoch_mismatch invalid_full_rekey_confirmation_tag : Error
  key_update_timed_out migration_during_rekey_is_not_allowed : Error
  invalid_migration_path_response invalid_hmac_key int_conversion : Error
  -- session.rs
  invalid_session_lifetime invalid_session_bandwidth session_lifetime_expired : Error
  session_quota_counter_overflow session_quota_exceeded : Error
  session_lifetime_expires_during_shaping : Error
  -- fragment.rs
  fragment_reassembly_limit_reached fragment_total_length_changed : Error
  conflicting_duplicate_fragment overlapping_fragment fragment_memory_limit_reached : Error
  truncated_fragment invalid_fragment_length fragment_exceeds_packet : Error
  -- packet_batch.rs; the second one is the panic of `chunks(0)`
  record_capacity_too_small chunk_size_is_zero packet_exceeds_fragment_limit : Error
  -- main.rs
  invalid_carrier_message_length : Error
  invalid_base64 invalid_token_length unknown_client expired_token invalid_gate_mac : Error
  replayed_gate_token invalid_migration_token_length unknown_migration_session : Error
  expired_migration_token invalid_migration_mac replayed_migration_token : Error
  invalid_ipv4_header invalid_ipv4_header_length invalid_ipv4_packet_length : Error
  ipv4_source_policy_violation invalid_ipv4_header_checksum : Error
  unsupported_data_frame_flags ipv6_is_not_enabled keepalive_frame_must_be_empty : Error
  path_probe_too_large path_probe_reply_too_large : Error
  admission_rate_table_full admission_rate_exceeded duplicate_active_session_id : Error
  client_hello_too_large client_selector_mismatch expected_client_hello : Error
  cursor_overflow bad_client_hello_length unsupported_version_or_suite : Error
  client_clock_outside_allowed_window : Error
  retry_cookie_too_large inner_retry_is_disabled extensions_too_large : Error
  experimental_extensions_are_disabled truncated_input trailing_bytes : Error
  handshake_message_too_large all_zero_x25519_output hkdf_label_or_context_too_long : Error
  invalid_iv_length handshake_plaintext_too_large handshake_encryption_failed : Error
  invalid_encrypted_handshake_header invalid_encrypted_handshake_length : Error
  handshake_authentication_failed short_client_auth invalid_requested_mtu : Error
  client_id_mismatch client_key_id_mismatch invalid_client_signature invalid_auth_layout : Error
  invalid_client_finished invalid_client_finish invalid_client_confirmation : Error
  critical_control_record_must_contain_one_frame : Error
  invalid_key_update_init_epoch_or_flags invalid_key_update_commit_epoch_or_flags : Error
  invalid_full_rekey_init_epoch_or_flags invalid_full_rekey_confirmation_epoch_or_flags : Error
  invalid_migration_response_record invalid_migration_response_frame : Error
  migration_carrier_closed carrier_failed carrier_closed expected_binary_message : Error
  kernel_write_failed : Error
  -- network.rs
  client_already_has_an_active_session : Error
  -- The model's own: a loop has run out of fuel.
  out_of_fuel : Error
  -- network.rs; a failure of the operating system is one error for each context
  invalid_tun_interface_name invalid_tun_mtu invalid_session_queue_size : Error
  invalid_tun_ipv4_address invalid_tun_prefix_length : Error
  helper_socket_paths_must_be_different helper_client_socket_is_required : Error
  helper_socket_is_required : Error
  reconnect_network_helper_socket network_helper_send_failed partial_network_packet_write : Error
  h2_carrier_buffer_limit_exceeded truncated_h2_carrier_message : Error
  -- main.rs, the configuration
  authority_must_contain_explicit_443_port tunnel_path_must_start_with_slash : Error
  decode_server_signing_seed server_signing_seed_must_be_32_bytes : Error
  decode_client_id client_id_must_be_16_bytes duplicate_client_id : Error
  decode_client_public_key client_public_key_must_be_32_bytes invalid_client_public_key : Error
  decode_gate_key gate_key_must_be_32_bytes : Error
  invalid_tunnel_ipv4 tunnel_ipv4_must_be_ipv4 : Error
  client_tunnel_ipv4_is_outside_the_usable_tun_subnet : Error
  duplicate_active_client_tunnel_ipv4 : Error
  -- h3_bridge.rs
  invalid_key_length tls_exporter_unavailable invalid_local_message_length : Error
  -- main.rs and h3_edge.rs, the H3 endpoint of a configuration
  invalid_listen_address too_many_configured_clients invalid_h3_listen_address : Error
  h3_authority_must_contain_explicit_443_port invalid_h3_path : Error
  read_h3_certificate_metadata h3_certificate_is_not_a_regular_file : Error
  read_h3_private_key_metadata h3_private_key_is_not_a_regular_file : Error
  h3_private_key_permissions_are_too_broad : Error
  open_h3_certificate parse_h3_certificate h3_certificate_chain_is_empty : Error
  parse_h3_private_key configure_h3_certificate : Error
  read_h3_decoy_root_metadata h3_decoy_root_is_not_a_directory resolve_h3_decoy_root : Error
  decoy_metadata_failed decoy_read_failed : Error
  -- net_helper.rs
  invalid_network_helper_configuration read_helper_tun partial_packet_send_to_edge : Error
  send_packet_to_edge receive_packet_from_edge partial_registration_acknowledgement : Error
  send_registration_acknowledgement write_helper_tun partial_helper_tun_write : Error
