-- ===== src/ClusterUpdate/Malformed.antt =====
-- model/diff/peer/cluster_update.cpp: messages that are refused.
use syncspirit.Prelude.{◌≡◌, false, List}
use syncspirit.Prelude.Find.{Any}
use syncspirit.ClusterUpdate.{ProtoDevice, ProtoFolder, Cluster, Source, Outside, State, start}
use syncspirit.ClusterUpdate.Passes.{is_device_id, for_each, first_pass, passes}
use syncspirit.ClusterUpdate.Diffs.{create}
use syncspirit.ClusterUpdate.Steps.{Holds, Holds-bind, for_each_reached}

first_pass-malformed :
    (outside : Outside) (cluster : Cluster) (source : Source) (f : ProtoFolder) (d : ProtoDevice)
    (s : State)
    → is_device_id d.id ≡ false
    → Holds (λ t. ⊥) (first_pass outside cluster source f d s)
unfolding first_pass
first_pass-malformed outside cluster source f d s bad = rw bad tt

-- No child diff is made of a message that names a device by anything but 32 bytes, wherever in the
-- message that is.
pub create-malformed :
    (outside : Outside) (cluster : Cluster) (source : Source) (message : List ProtoFolder)
    (f : ProtoFolder) (d : ProtoDevice)
    → Any (λ g. g ≡ f) message
    → Any (λ c. c ≡ d) f.devices
    → is_device_id d.id ≡ false
    → Holds (λ ds. ⊥) (create outside cluster source message)
unfolding create passes
create-malformed outside cluster source message f d m n bad =
    let none_left : State → Type 0 = λ s. ⊥ in
    Holds-bind none_left (λ ds. ⊥) (passes outside cluster source message start) _
      (Holds-bind none_left none_left
        (for_each (λ g. for_each (first_pass outside cluster source g) g.devices) message start) _
        (for_each_reached (λ g. for_each (first_pass outside cluster source g) g.devices) none_left
          f message start m
          (λ s.
            for_each_reached (first_pass outside cluster source f) none_left d f.devices s n
              (λ t. first_pass-malformed outside cluster source f d t bad) (λ c t h. elim h [ ]))
          (λ g s h. elim h [ ]))
        (λ s h. elim h [ ]))
      (λ s h. elim h [ ])
