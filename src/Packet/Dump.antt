-- ===== src/Packet/Dump.antt =====
-- `model_dump` of the classes of app/schemas/vts.py: a packet as a JSON value, with the fields that the
-- schema does not name at its end.
use welogical_vehicle_tracki.Common.{
  String, Option, none, some, List, [], ◌∷◌, str_eq, if◌then◌else◌,
}
use welogical_vehicle_tracki.Json.{
  Json, Items, Dict, null, int, num, str, arr, obj, nil, cons, empty, entry,
}
use welogical_vehicle_tracki.Packet.{
  VtsInfo, VtsGps, VtsIo, VtsPwr, VtsDbg, VtsPacket, Uid, text, number,
}

module _ {F : Type 0} where
  -- A field that may be `None`.
  abbrev pub field : {A : Type 0} → (A → Json F) → Option A → Json F
  field f none = null
  field f (some a) = f a

  abbrev pub items : {A : Type 0} → (A → Json F) → List A → Items F
  items f [] = nil
  items f (a ∷ rest) = cons (f a) (items f rest)

  abbrev pub dump_uid : Uid → Json F
  dump_uid (text s) = str s
  dump_uid (number z) = int z

  abbrev pub dump_info : VtsInfo → Json F
  dump_info i = obj (
      entry "dt" (int i.dt) (
        entry "txn" (str i.txn) (
          entry "msgkey" (field int i.msgkey) (
            entry "msgid" (field int i.msgid)
              (entry "cmdkey" (field str i.cmdkey) (entry "cmdval" (field str i.cmdval) empty))))))

  abbrev pub dump_gps : VtsGps F → Json F
  dump_gps g = obj (
      entry "fix" (str g.fix) (
        entry "loc" (arr (cons (num g.loc.0) (cons (num g.loc.1) nil))) (
          entry "speed" (num g.speed) (
            entry "sat" (field int g.sat) (
              entry "alt" (num g.alt)
                (entry "dir" (field num g.dir) (entry "odo" (field num g.odo) empty)))))))

  abbrev pub dump_io : VtsIo → Json F
  dump_io io = obj (
      entry "box" (field int io.box) (
        entry "ign" (field int io.ign) (
          entry "gpi" (field int io.gpi) (
            entry "status" (field int io.status)
              (entry "analog" (field (λ zs. arr (items int zs)) io.analog) empty)))))

  abbrev pub dump_pwr : VtsPwr F → Json F
  dump_pwr pwr = obj (
      entry "main" (field int pwr.main) (
        entry "batt" (field int pwr.batt)
          (entry "volt" (field num pwr.volt) (entry "mvolt" (field num pwr.mvolt) empty))))

  abbrev pub dump_dbg : VtsDbg → Json F
  dump_dbg dbg = obj (
      entry "status" (field (λ zs. arr (items int zs)) dbg.status) (
        entry "ver" (field (λ ss. arr (items str ss)) dbg.ver)
          (entry "lib" (field str dbg.lib) empty)))

  abbrev pub dump : VtsPacket F → Json F
  dump packet = obj (
      entry "uid" (dump_uid packet.uid) (
        entry "info" (dump_info packet.info) (
          entry "gps" (dump_gps packet.gps) (
            entry "io" (field dump_io packet.io) (
              entry "pwr" (field dump_pwr packet.pwr)
                (entry "dbg" (field dump_dbg packet.dbg) packet.model_extra))))))

  -- `d[k] = v`
  unfoldable pub set_key : String → Json F → Dict F → Dict F
  set_key k v empty = entry k v empty
  set_key k v (entry key old d) =
      let rest = set_key k v d in if str_eq key k then entry key v d else entry key old rest

  -- `for k, v in extra.items(): d[k] = v`
  unfoldable pub set_all : Dict F → Dict F → Dict F
  unfolding set_key
  set_all empty d = d
  set_all (entry k v rest) d = set_all rest (set_key k v d)
