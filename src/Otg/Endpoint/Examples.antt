-- ===== src/Otg/Endpoint/Examples.antt =====
-- An allocator of src/otg/endpoint.rs.
use one_kvm_stream_box.Base.{◌≡◌, refl, true}
use one_kvm_stream_box.Otg.Endpoint.{new, available, can_allocate}

five_of_eight : can_allocate (new 8) 5 ≡ true
unfolding can_allocate available
five_of_eight = refl
