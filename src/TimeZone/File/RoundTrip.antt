-- ===== src/TimeZone/File/RoundTrip.antt =====
-- A time zone file read by base/TimeZone.cc.
use naive_net.Common.{
  ℕ, ◌^◌, ◌<◌, ◌≡◌, refl, sym, List, [], ◌∷◌, ◌++◌, map, none, some, true, length, All,
}
use naive_net.Common.Int.{ℤ, pos}
use naive_net.TimeZone.Data.{Data, empty_data, find_localtime, search_from}
use naive_net.TimeZone.Utc.{Tm}
use naive_net.TimeZone.Local.{TimeZone, to_local_time, valid}
use naive_net.TimeZone.File.{
  got, read_bytes, read_int32, read_uint8, repeat, read_localtime, push_transitions, read_body,
  read_time_zone_file, file_zone,
}
use naive_net.TimeZone.File.Encode.{
  IsInt32, bytes_of_int32, bytes_of_localtime, flat, IsTransition, after_got, read_int32-bytes,
  read_bytes-length, repeat-int32, repeat-uint8, repeat-localtime, push_transitions_lem,
}

-- What a file says besides the zone: the version and the reserved bytes, three counts that are
-- read and not used, and the bytes behind the abbreviations.
pub record Header : Type 0 where
  pub version : List ℕ
  pub reserved : List ℕ
  pub isgmtcnt : ℤ
  pub isstdcnt : ℤ
  pub leapcnt : ℤ
  pub trailing : List ℕ

unfoldable pub tz_file : Header → Data → List ℕ
tz_file h zone =
    (b'T' ∷ b'Z' ∷ b'i' ∷ b'f' ∷ [])
    ++ (h.version
        ++ (h.reserved
            ++ (bytes_of_int32 h.isgmtcnt
                ++ (bytes_of_int32 h.isstdcnt
                    ++ (bytes_of_int32 h.leapcnt
                        ++ (bytes_of_int32 (pos (length zone.transitions))
                            ++ (bytes_of_int32 (pos (length zone.localtimes))
                                ++ (bytes_of_int32 (pos (length zone.abbreviation))
                                    ++ (flat (λ t. bytes_of_int32 t.gmttime) zone.transitions
                                        ++ (map (λ t. t.localtime_idx) zone.transitions
                                            ++ (flat bytes_of_localtime zone.localtimes
                                                ++ (zone.abbreviation ++ h.trailing))))))))))))

pub record IsHeader (h : Header) : Type 0 where
  pub version_length : length h.version ≡ 1
  pub reserved_length : length h.reserved ≡ 15
  pub isgmtcnt_in : IsInt32 h.isgmtcnt
  pub isstdcnt_in : IsInt32 h.isstdcnt
  pub leapcnt_in : IsInt32 h.leapcnt

pub record IsZone (zone : Data) : Type 0 where
  pub transitions_in : length zone.transitions < 2 ^ 31
  pub localtimes_in : length zone.localtimes < 2 ^ 31
  pub abbreviation_in : length zone.abbreviation < 2 ^ 31
  pub offsets : All (λ l. IsInt32 l.gmt_offset) zone.localtimes
  pub times : All (λ t. IsInt32 t.gmttime) zone.transitions
  pub shifts : All (IsTransition zone.localtimes) zone.transitions

read_body-tz_file :
    (h : Header) (zone : Data)
    → IsHeader h
    → IsZone zone
    → read_body (tz_file h zone) empty_data ≡ got tt h.trailing zone
unfolding read_body tz_file
read_body-tz_file h zone v w =
    after_got (read_bytes 4) _ (read_bytes-length 4 (b'T' ∷ b'Z' ∷ b'i' ∷ b'f' ∷ []) _ _ refl) (
      after_got (read_bytes 1) _ (read_bytes-length 1 h.version _ _ (sym v.version_length)) (
        after_got (read_bytes 15) _ (read_bytes-length 15 h.reserved _ _ (sym v.reserved_length)) (
          after_got read_int32 _ (read_int32-bytes h.isgmtcnt _ _ v.isgmtcnt_in) (
            after_got read_int32 _ (read_int32-bytes h.isstdcnt _ _ v.isstdcnt_in) (
              after_got read_int32 _ (read_int32-bytes h.leapcnt _ _ v.leapcnt_in) (
                after_got read_int32 _
                  (read_int32-bytes (pos (length zone.transitions)) _ _ w.transitions_in)
                  (after_got read_int32 _
                    (read_int32-bytes (pos (length zone.localtimes)) _ _ w.localtimes_in)
                    (after_got read_int32 _
                      (read_int32-bytes (pos (length zone.abbreviation)) _ _ w.abbreviation_in)
                      (after_got (repeat (length zone.transitions) read_int32) _
                        (repeat-int32 zone.transitions _ _ w.times)
                        (after_got (repeat (length zone.transitions) read_uint8) _
                          (repeat-uint8 zone.transitions _ _)
                          (after_got (repeat (length zone.localtimes) read_localtime) _
                            (repeat-localtime zone.localtimes _ _ w.offsets)
                            (after_got (push_transitions _ _) _
                              (push_transitions_lem zone.transitions _ _ w.shifts)
                              (after_got (read_bytes (length zone.abbreviation)) _
                                (read_bytes-length _ zone.abbreviation _ _ refl) refl)))))))))))))

-- A well-formed file is read back as the zone that it was written from.
pub file_zone-tz_file :
    (h : Header) (zone : Data)
    → IsHeader h
    → IsZone zone
    → file_zone (some (tz_file h zone)) ≡ some (record { zone = some zone })
unfolding file_zone
file_zone-tz_file h zone v w = rw (read_body-tz_file h zone v w, read_time_zone_file, file_zone)

-- The bug: a file that cannot be opened gives a zone that is valid, but whose local time is that of
-- an element of an empty vector.
pub to_local_time-no_file :
    (gmtime_r : ℤ → Tm) (seconds : ℤ)
    → (tz : TimeZone) × (file_zone none ≡ some tz)
      × (valid tz ≡ true)
      × (to_local_time gmtime_r tz seconds ≡ none)
unfolding file_zone valid to_local_time find_localtime search_from
to_local_time-no_file gmtime_r seconds = (_, refl, refl, refl)
