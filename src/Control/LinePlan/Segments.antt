-- ===== src/Control/LinePlan/Segments.antt =====
-- `SingleLineCost` and `LinePairCost` of control/line_plan.cc, each without and with the obstacles.
use boat.Prelude.{Bool, true, false, ◌&&◌, List, Option, some, ◌>>=◌, if◌then◌else◌}
use boat.Math.Polygon.{Plane}
use boat.Control.LinePlan.{
  Gate, num, origin, is_nan, heading_of, turn_cost, straight_line_cost, cross_finish_cost,
  obstacle_cost,
}

module _ (pl : Plane) where
  open pl use {
    floats, Point, point, x, y, plus, minus, times, over, dot, normalized, squared_norm, norm,
  }
  open floats use {F, add, sub, mul, neg, lt, literal}

  abbrev pub crossing : Gate pl → F → Point
  crossing gate alpha = plus gate.0 (times alpha (minus gate.1 gate.0))

  abbrev opposite : Point → Point
  opposite v = point (neg (x v)) (neg (y v))

  -- The derivative of a vector's direction, and of its length.
  abbrev datan : Point → Point → F
  datan v dv = dot (over (point (neg (y v)) (x v)) (squared_norm v)) dv

  abbrev dnorm : Point → Point → F
  dnorm v dv = dot (normalized v) dv

  -- The cost, its derivative by `alpha`, and whether the line can be sailed.
  pub single_line_cost : Gate pl → Point → F → F → Point → F → F × F × Bool
  unfolding turn_cost straight_line_cost cross_finish_cost
  single_line_cost gate startpt alpha preheading nextpt winddir =
      let endpt = crossing gate alpha in
      let dend = minus gate.1 gate.0 in
      let firstleg = minus endpt startpt in
      let nextleg = minus nextpt endpt in
      let dnextleg = opposite dend in
      let startheading = heading_of pl firstleg in
      let dstart = datan firstleg dend in
      let at_next = lt (squared_norm nextleg) (literal 1 100000000) in
      let nextheading = if at_next then startheading else heading_of pl nextleg in
      let dnext = if at_next then dstart else datan nextleg dnextleg in
      let dfirstlen = dnorm firstleg dend in
      let dnextlen = dnorm nextleg dnextleg in
      let (firstcost, dfcostdlen, dfcostdheading, viable) =
        straight_line_cost pl (norm firstleg) startheading winddir true in
      let (nextcost, dncostdlen, dncostdheading, _) =
        straight_line_cost pl (norm nextleg) nextheading winddir false in
      let lencost = add firstcost nextcost in
      let dlencost =
        add
          (add (add (mul dfcostdlen dfirstlen) (mul dfcostdheading dstart))
            (mul dncostdlen dnextlen))
          (mul dncostdheading dnext) in
      let (preturncost, _, dpreturndend) = turn_cost pl preheading startheading winddir in
      let dpreturncost = mul dpreturndend dstart in
      let (midturncost, dturndstart, dturndend) = turn_cost pl startheading nextheading winddir in
      let dmidturncost = add (mul dturndstart dstart) (mul dturndend dnext) in
      let turncost = add midturncost preturncost in
      let dturncost = add dmidturncost dpreturncost in
      let (crosscost, dcross) = cross_finish_cost pl alpha in
      let dcost = add (add dlencost dturncost) dcross in
      (add (add lencost turncost) crosscost, if is_nan pl dcost then num pl 0 else dcost, viable)

  unfoldable pub single_line_cost_among :
      List (List Point) → Gate pl → Point → F → F → Point → F → Option (F × F × Bool)
  unfolding single_line_cost obstacle_cost
  single_line_cost_among obstacles gate startpt alpha preheading nextpt winddir =
      let (basecost, basedalpha, viable) =
        single_line_cost gate startpt alpha preheading nextpt winddir in
      let crosspt = crossing gate alpha in
      do
        (obstaclecost, obstacledend) ← obstacle_cost pl crosspt startpt obstacles
        let obstacledalpha = dot obstacledend (minus gate.1 gate.0)
        some (add basecost obstaclecost, add basedalpha obstacledalpha, viable)

  -- The cost, its derivative by the point of the turn, and whether both lines can be sailed. The
  -- vector that the sums go to counts as zero once it is multiplied by zero.
  pub line_pair_cost : Point → Point → Point → F → F → F → F → F × Point × Bool
  unfolding turn_cost straight_line_cost
  line_pair_cost startpt endpt turnpt preheading postheading winddir scale_pre_cost =
      let sega = minus turnpt startpt in
      let segb = minus endpt turnpt in
      let lena = norm sega in
      let dlena = over sega (norm sega) in
      let lenb = norm segb in
      let dlenb = over (opposite segb) (norm segb) in
      let headinga = heading_of pl sega in
      let dheadinga = over (point (neg (y sega)) (x sega)) (squared_norm sega) in
      let headingb = heading_of pl segb in
      let dheadingb = over (opposite (point (neg (y segb)) (x segb))) (squared_norm segb) in
      let (precost, _, dpreend) = turn_cost pl preheading headinga winddir in
      let (midcost, dmidstart, dmidend) = turn_cost pl headinga headingb winddir in
      let (postcost, dpoststart, _) = turn_cost pl headingb postheading winddir in
      let (linea, dalen, daheading, viablea) = straight_line_cost pl lena headinga winddir true in
      let (lineb, dblen, dbheading, viableb) = straight_line_cost pl lenb headingb winddir true in
      let turns = add (add (add (num pl 0) (mul precost scale_pre_cost)) midcost) postcost in
      let dpre = plus (origin pl) (times scale_pre_cost (times dpreend dheadinga)) in
      let dmid = plus (plus dpre (times dmidstart dheadinga)) (times dmidend dheadingb) in
      let dturns = plus dmid (times dpoststart dheadingb) in
      let da = plus dturns (plus (times dalen dlena) (times daheading dheadinga)) in
      (
        add (add turns linea) lineb,
        plus da (plus (times dblen dlenb) (times dbheading dheadingb)),
        viableb && (viablea && true),
      )

  unfoldable pub line_pair_cost_among :
      List (List Point) → Point → Point → Point → F → F → F → F → Option (F × Point × Bool)
  unfolding line_pair_cost obstacle_cost
  line_pair_cost_among obstacles startpt endpt turnpt preheading postheading winddir scale =
      let (basecost, basedturn, viable) =
        line_pair_cost startpt endpt turnpt preheading postheading winddir scale in
      do
        (startcost, dstartturn) ← obstacle_cost pl turnpt startpt obstacles
        (endcost, dendturn) ← obstacle_cost pl turnpt endpt obstacles
        some (
          add (add (add (num pl 0) basecost) startcost) endcost,
          plus (plus (plus (origin pl) basedturn) dstartturn) dendturn,
          viable,
        )
