-- ===== src/FileHandler/Tests.antt =====
-- FileHandler on concrete packets.
use wolk_connect_cpp.Base.{◌≡◌, refl, ◌⊎◌}
use wolk_connect_cpp.Samples.{sample_api, first_packet, second_packet}
use wolk_connect_cpp.FileHandler.{
  StatusCode, package_hash_not_valid, previous_package_hash_not_valid, handle_data, empty,
}
use wolk_connect_cpp.FileHandler.Laws.{Follows, append, handle_data-cases}

second_is_not_first :
    handle_data sample_api empty second_packet ≡ (previous_package_hash_not_valid, empty)
unfolding handle_data
second_is_not_first = refl

handle_data-cases_example :
    let h = append sample_api empty first_packet in
    (Follows sample_api h.previous_packet_hash second_packet
      × (handle_data sample_api h second_packet
          ≡ (StatusCode.ok, append sample_api h second_packet)))
    ⊎ ((¬ Follows sample_api h.previous_packet_hash second_packet)
        × ((handle_data sample_api h second_packet ≡ (package_hash_not_valid, h))
            ⊎ (handle_data sample_api h second_packet ≡ (previous_package_hash_not_valid, h))))
handle_data-cases_example =
    handle_data-cases sample_api (append sample_api empty first_packet) second_packet
