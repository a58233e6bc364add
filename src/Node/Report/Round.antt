-- ===== src/Node/Report/Round.antt =====
-- One round of reportUserTrafficTask: what is sent, and what stays in the limiter.
use bxtest.Prelude.{
  Str, ℤ, int_eq, text_eq, true, false, if◌then◌else◌, none, some, List, [], ◌∷◌, Map, lookup,
  get_or_default, ◌≡◌, refl, sym, ap, ◌∙◌, arith,
}
use bxtest.Panel.{OnlineUser, UserTraffic}
use bxtest.Core.{Core}
use bxtest.Limiter.Check.Refusal.{is_online}
use bxtest.Limiter.Online.{get_online_device}
use bxtest.Limiter.Online.Report.{all_pairs, get_online_device-IsReport}
use bxtest.Node.Controller.{World, own_limiter}
use bxtest.Node.Report.{
  Sent, slice_of, unless_empty, online_result, online_data, report_user_traffic_task,
}
use bxtest.Node.Report.Filter.{is_idle, has_entry, is_idle-has_entry, ips_with, online_data-ips}

some_of_unless_empty : {A D : Type 0} (l : List A) (d e : D) → unless_empty l d ≡ some e → d ≡ e
some_of_unless_empty [] d e h = cc
some_of_unless_empty (x ∷ xs) d e h = ground arith

empty_of_unless_empty : {A D : Type 0} (l : List A) (d : D) → unless_empty l d ≡ none → l ≡ []
empty_of_unless_empty [] d h = refl
empty_of_unless_empty (x ∷ xs) d h = cc

module _ {S B R : Type 0} (core : Core S) (w : World S B R) where
  -- the traffic that the core hands out, and the users online before the round
  abbrev pub slice_before : List UserTraffic
  slice_before = slice_of (core.get_user_traffic_slice w.controller.tag true w.server).0

  abbrev pub online_before : List OnlineUser
  online_before = all_pairs (own_limiter w).user_online_ip

  pub record IsReported (result : Sent × World S B R) : Type 0 where
    -- the addresses of each uid that is not idle
    pub ips :
        (d : Map ℤ (List Str)) (uid : ℤ)
        → result.0.online ≡ some d
        → get_or_default [] (lookup uid d) ≡ (
            if is_idle w.controller.options.device_online_min_traffic slice_before uid
            then []
            else ips_with uid online_before)
    -- a uid without traffic counts as not idle: all its addresses are sent
    pub without_traffic :
        (d : Map ℤ (List Str)) (uid : ℤ)
        → result.0.online ≡ some d
        → has_entry slice_before uid ≡ false
        → get_or_default [] (lookup uid d) ≡ ips_with uid online_before
    -- nothing is sent only if nobody was online
    pub silent : result.0.online ≡ none → online_before ≡ []
    pub nobody : (t j : Str) → is_online (own_limiter result.1) t j ≡ false
    pub same_users : (own_limiter result.1).user_limit_info ≡ (own_limiter w).user_limit_info

  -- A round reports, whenever somebody was online, every address of every uid that has no entry below the
  -- minimum in the slice of the core, and none of the other uids. This includes each uid that has no
  -- entry at all, that is, no traffic, although the comment in the source says that only users with
  -- traffic above the minimum are reported. Afterwards nobody is online in the limiter, and its users are the same.
  pub report_user_traffic_task-IsReported : IsReported (report_user_traffic_task core w)
  unfolding report_user_traffic_task
  report_user_traffic_task-IsReported =
      let r = get_online_device-IsReport (own_limiter w) in
      let min = w.controller.options.device_online_min_traffic in
      let online = (get_online_device (own_limiter w)).0 in
      record {
        ips = λ d uid h.
            ap (λ m. get_or_default [] (lookup uid m))
              (sym (
                some_of_unless_empty online (online_data (online_result min slice_before online)) d
                  h))
            ∙ online_data-ips min uid slice_before online
            ∙ ap (λ us. if is_idle min slice_before uid then [] else ips_with uid us) r.all;
        without_traffic = λ d uid h none_at.
            ap (λ m. get_or_default [] (lookup uid m))
              (sym (
                some_of_unless_empty online (online_data (online_result min slice_before online)) d
                  h))
            ∙ online_data-ips min uid slice_before online
            ∙ rw (is_idle-has_entry min uid slice_before none_at) (ap (ips_with uid) r.all);
        silent = λ h.
            sym r.all
            ∙ empty_of_unless_empty online (online_data (online_result min slice_before online)) h;
        nobody = λ t j. ground (arith, r.nobody t j);
        same_users = ground (arith, r.same_users);
      }
